-- ===== src/Store.antt =====
-- internal/store: the SQLite ledger. A table is a list of rows, a statement a function of it, and each
-- call takes a Boolean for whether the database answers.
pub mod PolicyDecisions
pub mod Reconciliation
