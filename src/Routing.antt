-- ===== src/Routing.antt =====
-- Content routing: server/routing.
pub mod Datastore
pub mod Metrics
pub mod Local
pub mod Network
pub mod Remote
pub mod Handler
pub mod Combined
