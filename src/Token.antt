-- ===== src/Token.antt =====
-- src/protocol/token.rs: validation of the RMBT token, v1 and v2, and the check for `/ip`.
pub mod Defs
pub mod Window
pub mod V1
pub mod Shape
pub mod Rules
pub mod Verdict
pub mod V2
pub mod Issue
pub mod RoundTrip
pub mod Sound
pub mod Exact
pub mod IpCheck
