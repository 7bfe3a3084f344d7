-- ===== src/Commands.antt =====
-- src/protocol/commands.rs: the test commands and the loop that reads them.
pub mod Defs
pub mod Keeps
pub mod Safe
pub mod Halts
pub mod Timed
pub mod Steps
pub mod Ends
pub mod Quiet
pub mod Blocks
pub mod Upload
pub mod Chunks
pub mod Download
pub mod Until
pub mod Gettime
pub mod Reports
pub mod Told
pub mod Rounds
pub mod Progress
