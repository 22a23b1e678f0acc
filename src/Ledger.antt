-- ===== src/Ledger.antt =====
-- The audit ledger (internal/store/audit.go) under any history of the service: it is appended to, and
-- its ids go up.
pub mod Rows
pub mod Down
pub mod Listed
pub mod Serve
