-- ===== src/Labels.antt =====
-- Labels and their keys: server/routing/label_metadata.go and server/routing/validators.
pub mod Namespace
pub mod Key
pub mod Metadata
pub mod Validator
