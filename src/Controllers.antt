-- ===== src/Controllers.antt =====
-- The gRPC controllers (server/controller).
pub mod Stream
pub mod Store
