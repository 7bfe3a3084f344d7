-- ===== src/Upgrade.antt =====
-- The HTTP phase of a connection, src/stream/websocket_upgrade.rs.
pub mod Defs
pub mod Head
pub mod Route
pub mod Tame
