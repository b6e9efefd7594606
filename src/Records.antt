-- ===== src/Records.antt =====
-- Records: the OASF objects of three schema versions (api/core/v1) and their version-agnostic view
-- (server/types/record.go).
pub mod View
pub mod V1
pub mod V2
pub mod V3
pub mod Adapter
pub mod LabelsOf
