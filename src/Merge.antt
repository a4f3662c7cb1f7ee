-- ===== src/Merge.antt =====
-- apps/orchestrator/src/modules/merge: from the gate signals of a run to the merge of its PR.
pub mod Gates
pub mod Evaluator
pub mod Execution
