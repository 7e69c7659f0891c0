-- ===== src/Storage.antt =====
-- internal/storage/postgres: the tables, and what one call of the repository does to them. A call may
-- fail, by `Env.faults`; then it has changed nothing. A handler keeps what it wrote before an error.
pub mod Action
pub mod Accounts
pub mod Members
pub mod Tokens
pub mod Onboarding
pub mod Coverage
pub mod Architecture
pub mod Teams
pub mod Flows
