-- ===== src/Budget.antt =====
-- internal/budget: the burn ban, the dollar caps and the reservations of work in flight.
pub mod Caps
pub mod Positions
pub mod Check
pub mod Admit
pub mod Cache
