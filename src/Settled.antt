-- ===== src/Settled.antt =====
-- After a round of `Reconcile` (internal/api/api.go) without errors, nothing that was due is left.
pub mod Rows
pub mod Reconcile
