-- ===== src/Version.antt =====
-- The version endpoint of src/version.rs.
pub mod Defs
