-- ===== src/Http.antt =====
-- HTTP over the transport of src/stream/transport.rs: what the upgrade, /ip and /version share.
pub mod Defs
pub mod Uses
pub mod Plain
