-- ===== src/Lib.antt =====
-- A model of rmbtd, the RMBT measurement server of this repository (src/), and what is proved of it.
--
-- The accept loop (src/server/mod.rs) hands each connection to a worker in turn, over bounded queues.
-- A worker upgrades the connection (src/stream), runs the greeting, in which the client presents its
-- token (src/protocol/greeting.rs, src/protocol/token.rs), and then the command loop with the tests
-- (src/protocol/commands.rs). Requests to /ip are answered by src/ip_check.rs, which uses the same
-- tokens. Events go to a syslog collector as JSON (src/events.rs). Configuration and secret keys come
-- from the command line and the key file (src/config).
--
--   Common, Int, Text, Utf8   lists, integers, and byte strings with the operations of str in use
--   Address                   IP addresses, and mapped_ipv6 of src/protocol/token.rs
--   Crypto                    HMAC, SHA-1 and base64, which are parameters with their documented laws
--   Config                    src/config: Defs has the constants and Config, Keys read_secret_keys,
--                             Cli parse_cli, parse_addr and parse_syslog_target
--   Token                     src/protocol/token.rs: Defs is the validator, Issue make_test_token
--   Tls                       src/tls.rs: build_tls_config
--   Transport                 src/stream/transport.rs
--   Io, Stream                src/stream/mod.rs over a scripted peer: what it sends, how its stream
--                             ends, which writes or flushes fail, and what the clock shows
--   Http, Upgrade             src/stream/websocket_upgrade.rs, and what it uses of
--                             src/stream/transport.rs
--   Version                   src/version.rs
--   Stats, Events             src/events.rs: ConnStats, and the JSON text of the events: Escape has the
--                             builder, connect, auth and the frame, Bodies close, startup and error,
--                             Sink EventSink::new
--   Commands                  src/protocol/commands.rs: the handlers and the loop
--   Greeting                  src/protocol/greeting.rs: run_greeting
--   Server                    src/server/mod.rs: Defs has the queues and workers, Pool them as a state
--                             machine, Accept the accept loop, Session handle_connection, and Startup
--                             Server::new with run of src/main.rs
--   IpCheck                   src/ip_check.rs: Defs has ip_response and what it calls, Handle the rest
--   Build                     build.rs
--   Witness                   concrete runs
--
-- Functions keep the names of the source; a function cut out of a longer one says so in its comment.
-- A str is the list of its UTF-8 bytes. Fallible code returns an Option, a sum of its own or an
-- Outcome, where `panic` is a failed assertion. Machine integers keep their wrap-around, and usize
-- has 64 bits. The loops of the source that have no bound take fuel, and `stuck` says that it ran
-- out; the theorems on them hold for every amount of fuel, and more fuel than there are bytes and
-- frames to come is enough, with a clock on which the longest test, 30 seconds, goes by in as many
-- readings (Commands.Ends, Greeting.Halts, Server.Closes). Splitting and printing functions start with
-- fuel computed from their input, which is enough. The clock is read where the source reads it: a
-- `Clock` holds the two readings that the validation of a v2 token makes, in order.
--
-- Not modelled: sockets, threads, what rustls does, and log lines, whose results are parameters or
-- steps of a script; the UDP socket and the time stamp of the events; the runtime and the signal
-- handler of src/main.rs; src/logger.
pub mod Common
pub mod Int
pub mod Text
pub mod Address
pub mod Crypto
pub mod Config
pub mod Tls
pub mod Token
pub mod Utf8
pub mod Io
pub mod Stream
pub mod Stats
pub mod Commands
pub mod Greeting
pub mod Events
pub mod Server
pub mod IpCheck
pub mod Witness
pub mod Http
pub mod Version
pub mod Upgrade
pub mod Build
pub mod Transport
