-- ===== src/Collector.antt =====
-- The collection of what is not needed.
pub mod JobRunner
pub mod Bounds
pub mod Tests
pub mod Reaper
pub mod Retained
pub mod Reaped
