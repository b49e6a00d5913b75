-- ===== src/Pricing.antt =====
-- The prices of models and what a request costs: internal/pricing.
pub mod Types
pub mod Lookup
pub mod Cost
pub mod Validate
pub mod Contracts
pub mod Load
pub mod Resolve
