-- ===== src/Stream.antt =====
-- src/stream/mod.rs: the line and block operations of `Stream`, raw and over WebSocket.
pub mod Defs
pub mod Lines
pub mod Framing
pub mod Taken
pub mod Tame
