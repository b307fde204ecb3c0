-- ===== src/Algorithm.antt =====
-- Choosing the versions of a job's inputs (db/algorithm).
pub mod Sets
pub mod Search
pub mod Versions
pub mod Candidates
pub mod Database
pub mod Inputs
pub mod Resolve
mod Tests
