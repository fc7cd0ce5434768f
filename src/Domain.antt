-- ===== src/Domain.antt =====
-- packages/domain: the pure rules of sessions, print jobs, retention and print settings.
pub mod Session
pub mod PrintJob
pub mod Retention
pub mod Settings
pub mod ObjectKeys
pub mod PageRanges
pub mod Canonical
