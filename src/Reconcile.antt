-- ===== src/Reconcile.antt =====
-- internal/reconcile: the import of provider invoices.
pub mod Money
pub mod Line
pub mod Mapping
pub mod Invoice
