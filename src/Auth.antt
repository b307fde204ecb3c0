-- ===== src/Auth.antt =====
-- Who may use which route of the API.
pub mod Routes
pub mod Guards
pub mod Request
pub mod Handlers
pub mod Api
pub mod Contract
pub mod Lookups
pub mod Known
pub mod Unknown
pub mod Served
pub mod Writes
pub mod Tests
