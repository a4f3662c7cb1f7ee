-- ===== src/Db.antt =====
-- packages/db/src/repos: the in-memory repositories.
pub mod Findings
pub mod WorkflowRuns
pub mod RunLock
