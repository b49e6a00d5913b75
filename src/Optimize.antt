-- ===== src/Optimize.antt =====
-- internal/optimize: the fixed-point arithmetic of the recommendations, and the quality scores.
pub mod FixedPoint
pub mod Score
