-- ===== src/Events.antt =====
-- The JSON text of the events of src/events.rs.
pub mod Escape
pub mod RoundTrip
pub mod Bodies
pub mod Object
pub mod Close
pub mod Sink
