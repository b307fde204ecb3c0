-- ===== src/Events.antt =====
-- The events of builds, as messages in JSON.
pub mod EventTypes
pub mod Structs
pub mod Parser
pub mod RoundTrip
pub mod Tests
