-- ===== src/Locks.antt =====
-- Locks that are held by one goroutine of one process.
pub mod System
pub mod Invariant
pub mod Exclusion
pub mod Traces
pub mod Availability
pub mod Keys
pub mod Tests
