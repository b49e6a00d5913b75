-- ===== src/Downshift/Valid.antt =====
-- internal/downshift: the decision and the configuration behind it.
pub mod Choice
pub mod Sources
pub mod Compatible
pub mod Due
