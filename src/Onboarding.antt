-- ===== src/Onboarding.antt =====
-- The assignments of internal/services/onboarding_service.go.
pub mod Assign
pub mod Once
pub mod Templates
pub mod Seeds
pub mod Flows
