-- ===== src/Auth.antt =====
-- internal/services/auth_service.go: passwords, slugs, tokens, sessions, login and registration.
pub mod Password
pub mod Slug
pub mod Tokens
pub mod Session
pub mod Login
pub mod Registration
pub mod Families
pub mod Rotation
pub mod Keeps
pub mod Requests
pub mod Invariants
pub mod Revoked
pub mod Sessions
pub mod Logout
pub mod Refresh
