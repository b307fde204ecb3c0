-- ===== src/Build.antt =====
-- From a job's configuration to a plan, and from a plan to the steps that the engine runs.
pub mod Plan
pub mod Create
pub mod Ids
pub mod Total
pub mod Timeouts
pub mod Made
pub mod Engine
pub mod Runs
pub mod Resume
pub mod Public
pub mod Tests
