-- ===== src/Tests.antt =====
-- The development at concrete inputs.
pub mod Data
pub mod Matching
pub mod Counting
pub mod Admission
pub mod Choosing
pub mod Invoices
pub mod Budgets
pub mod Caches
pub mod Scores
pub mod Prices
pub mod Replays
