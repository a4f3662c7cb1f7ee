-- ===== src/Commands.antt =====
-- apps/orchestrator/src/modules/commands: the authorization of commands and the approval of plans.
pub mod Authorization
pub mod PlanApproval
pub mod Matching
pub mod Approval
