-- ===== src/Witness.antt =====
-- Concrete runs of the theorems, with a keyed sum in the place of the hash functions and a
-- base64 of two characters for a byte.
pub mod Setup
mod Tokens
mod Parts
mod Sessions
mod Transfers
mod Servers
mod Transcripts
