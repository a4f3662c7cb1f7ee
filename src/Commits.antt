-- ===== src/Commits.antt =====
-- What an agent may write and what is committed of it.
pub mod Paths
pub mod Overlay
pub mod Patch
pub mod Message
pub mod Builder
