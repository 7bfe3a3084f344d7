-- ===== src/Greeting.antt =====
-- src/protocol/greeting.rs: the greeting and the authentication.
pub mod Defs
pub mod Auth
pub mod Logs
pub mod Says
pub mod FirstLine
pub mod Decide
pub mod Transcript
pub mod Halts
