-- ===== src/Intake.antt =====
-- apps/orchestrator/src/modules/intake: the conversation that clarifies a request, and the
-- deduplication of requests.
pub mod Clarifier
pub mod Dedup
