-- ===== src/Issues.antt =====
-- Issues: triage, the status comment and what is projected on labels.
pub mod Words
pub mod Categories
pub mod Labels
pub mod Triage
pub mod Marker
pub mod StatusComment
