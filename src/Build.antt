-- ===== src/Build.antt =====
-- build.rs: the version and the branch that the build puts into the program.
pub mod Defs
