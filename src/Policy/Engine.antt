-- ===== src/Policy/Engine.antt =====
-- internal/policy/engine.go: the state of the engine. The mutex serialises its methods, so each is a
-- function from one state to the next.
mod State
pub mod Evaluate
pub mod Prepare
pub mod Reservation
pub mod Windows
unfoldable pub use State.*
