-- ===== src/Audit.antt =====
-- packages/audit/src: the hash chain of audit records.
pub mod Canonical
pub mod Chain
