-- ===== src/Search.antt =====
-- Search queries (server/database/utils and server/types/search.go).
pub mod Filters
