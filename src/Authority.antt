-- ===== src/Authority.antt =====
-- Who may do what: what has been checked when a handler of internal/api/api.go answers with success.
pub mod Refusals
pub mod Clean
pub mod Refused
pub mod Left
pub mod Approve
pub mod Create
pub mod Release
