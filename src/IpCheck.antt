-- ===== src/IpCheck.antt =====
-- The endpoint of src/ip_check.rs.
pub mod Defs
pub mod Handle
pub mod Reads
pub mod Statuses
pub mod Echo
pub mod Proper
pub mod Framed
pub mod Answer
pub mod Nat
pub mod Uuid
