-- ===== src/Sync.antt =====
-- The sync service (server/sync).
pub mod Zot
pub mod Database
pub mod Scheduler
pub mod Worker
pub mod Monitor
