-- ===== src/Publications.antt =====
-- The publication service (server/publication and its rows in server/database/sqlite).
pub mod Rows
pub mod Worker
pub mod Scheduler
