-- ===== src/Downshift.antt =====
-- The downshift of requests to a cheaper equivalent model: internal/downshift.
pub mod Config
pub mod Features
pub mod Decide
pub mod Valid
pub mod History
pub mod TargetCost
pub mod Simulate
pub mod Runtime
