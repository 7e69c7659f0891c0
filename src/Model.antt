-- ===== src/Model.antt =====
-- The rows of the tables, one record for each struct of internal/models.
pub mod Identity
pub mod Onboarding
pub mod Coverage
pub mod Architecture
pub mod Facts
pub mod Repositories
