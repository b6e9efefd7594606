-- ===== src/Store.antt =====
-- The stores (server/store).
pub mod Cache
