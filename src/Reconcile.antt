-- ===== src/Reconcile.antt =====
-- Reconciliation of the recorded state with GitHub.
pub mod Drift
pub mod Projection
