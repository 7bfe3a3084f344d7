-- ===== src/Server.antt =====
-- The accept loop, the workers and the session of src/server/mod.rs.
pub mod Defs
pub mod Pool
pub mod Accounts
pub mod Ids
pub mod Session
pub mod Verified
pub mod Closes
pub mod Accept
pub mod Startup
pub mod Ready
pub mod Loop
use open_rmbt_server.Common.{if◌then◌else◌}
