-- ===== src/Pipeline.antt =====
-- Pipeline configurations, what their jobs use, and their validation.
pub mod Config
pub mod Limits
pub mod Plans
pub mod Messages
pub mod Steps
pub mod Valid
pub mod Validate
pub mod TaskSteps
pub mod Tests
