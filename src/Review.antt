-- ===== src/Review.antt =====
-- apps/orchestrator/src/modules/review: the life of a review finding.
pub mod Lifecycle
