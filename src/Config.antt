-- ===== src/Config.antt =====
-- src/config: constants, the configuration, the key file and the command line.
pub mod Defs
pub mod Keys
pub mod KeyFile
pub mod Cli
pub mod Secure
