-- ===== src/Workers.antt =====
-- Which worker a container is placed on.
pub mod Spec
pub mod Underlying
pub mod Pool
pub mod Satisfies
pub mod Placement
pub mod Locality
pub mod Placed
pub mod Tests
