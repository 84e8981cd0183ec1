-- ===== src/Tests.antt =====
-- A concrete gateway, on which the definitions run.
pub mod Demo
pub mod Sessions
pub mod Accounts
pub mod Lockouts
pub mod Secrets
pub mod Logins
pub mod Starts
pub mod Loads
pub mod Rivals
pub mod Harness
pub mod Reports
pub mod Journeys
pub mod Seedings
pub mod Throttles
pub mod Crowds
