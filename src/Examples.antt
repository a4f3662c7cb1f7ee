-- ===== src/Examples.antt =====
-- Tests of the definitions, and the theorems at inputs that meet their hypotheses.
mod Commits
mod Policy
mod Merge
mod Gate
mod Budget
mod Commands
mod Review
mod Audit
mod Intake
mod Db
mod Issues
mod Reconcile
mod Webhooks
mod EventBus
