-- ===== src/Policy.antt =====
-- The policy engine: internal/policy.
pub mod Wildcard
pub mod Types
pub mod Counters
pub mod Context
pub mod Scope
pub mod Decision
pub mod Engine
pub mod Validate
pub mod Replay
