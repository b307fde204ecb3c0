-- ===== src/Scheduler.antt =====
-- The scheduling of jobs: the inputs of the next build and whether there is to be one (Mapper, Jobs),
-- and the start of pending builds (Starter), with the limit on builds in flight.
pub mod MaxInFlight
pub mod Starter
pub mod Tables
pub mod Mapper
pub mod Jobs
pub mod Runner
pub mod Tests
