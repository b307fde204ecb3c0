-- ===== src/Exec.antt =====
-- The steps of a build plan (exec/*_step.go, exec/on_*.go, exec/aggregate.go, exec/retry_step.go).
pub mod Errors
pub mod Steps
pub mod Plan
pub mod Outcome
pub mod Refinement
pub mod Traces
pub mod Calm
pub mod Tests
