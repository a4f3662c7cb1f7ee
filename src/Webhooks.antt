-- ===== src/Webhooks.antt =====
-- apps/orchestrator/src/webhook, and what it calls of packages/github and packages/github-events.
pub mod Stores
pub mod Events
pub mod Route
pub mod Replay
pub mod Echo
