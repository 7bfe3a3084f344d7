-- ===== src/Transport.antt =====
-- src/stream/transport.rs: a plain socket, or one under TLS. The socket, the stream of rustls over
-- it and their calls are parameters.
use open_rmbt_server.Common.{ℕ, Option}
use open_rmbt_server.Text.{Bytes}
use open_rmbt_server.Address.{SocketAddr}
use open_rmbt_server.Io.{ErrorKind, Outcome, ok, err}

-- The calls that `Read` and `Write` and `peer_addr` have of a stream, each with the stream behind
-- it.
record Calls (S : Type 0) : Type 0 where
  read : ℕ → S → Outcome Bytes × S
  write : Bytes → S → Outcome ℕ × S
  flush : S → Outcome (Unit {0}) × S

-- What rustls has: a stream over a socket, made from a configuration.
record Tls (Socket Config Stream : Type 0) : Type 0 where
  new : Config → Socket → Outcome Stream
  get_ref : Stream → Socket
  send_close_notify : Stream → Stream
  calls : Calls Stream

data Transport (Socket Stream : Type 0) : Type 0 where
  plain : Socket → Transport Socket Stream
  tls : Stream → Transport Socket Stream

module _ {Socket Config Stream : Type 0} (calls : Calls Socket)
    (socket_addr : Socket → Option SocketAddr) (t : Tls Socket Config Stream) where
  abbrev over_tls : Outcome Stream → Outcome (Transport Socket Stream)
  over_tls (ok s) = ok (Transport.tls s)
  over_tls (err e) = err ErrorKind.other
  over_tls Outcome.panic = Outcome.panic
  over_tls Outcome.stuck = Outcome.stuck

  -- `Transport::tls`, which makes the state of the connection.
  abbrev over_socket : Config → Socket → Outcome (Transport Socket Stream)
  over_socket config s = over_tls (t.new config s)

  abbrev peer_addr : Transport Socket Stream → Option SocketAddr
  peer_addr (plain s) = socket_addr s
  peer_addr (tls s) = socket_addr (t.get_ref s)

  -- The outcome of the flush is dropped.
  abbrev close : Transport Socket Stream → Transport Socket Stream
  close (plain s) = plain s
  close (tls s) = tls (t.calls.flush (t.send_close_notify s)).1

  abbrev read : ℕ → Transport Socket Stream → Outcome Bytes × Transport Socket Stream
  read n (plain s) = let (r, s') = calls.read n s in (r, plain s')
  read n (tls s) = let (r, s') = t.calls.read n s in (r, tls s')

  abbrev write : Bytes → Transport Socket Stream → Outcome ℕ × Transport Socket Stream
  write b (plain s) = let (r, s') = calls.write b s in (r, plain s')
  write b (tls s) = let (r, s') = t.calls.write b s in (r, tls s')

  abbrev flush : Transport Socket Stream → Outcome (Unit {0}) × Transport Socket Stream
  flush (plain s) = let (r, s') = calls.flush s in (r, plain s')
  flush (tls s) = let (r, s') = t.calls.flush s in (r, tls s')
