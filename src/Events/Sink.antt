-- ===== src/Events/Sink.antt =====
-- `EventSink::new` of src/events.rs. The socket calls, the host name and the process id are
-- parameters.
use open_rmbt_server.Common.{ℕ, if◌then◌else◌, replicate}
use open_rmbt_server.Text.{Bytes}
use open_rmbt_server.Address.{v4, v6, SocketAddr, is_ipv4}
use open_rmbt_server.Io.{Outcome, ok, err, panic, stuck}

record EventSink (Socket : Type 0) : Type 0 where
  socket : Socket
  hostname : Bytes
  procid : ℕ

-- `UdpSocket::bind` and `UdpSocket::connect`.
record Udp (Socket : Type 0) : Type 0 where
  bind : SocketAddr → Outcome Socket
  connect : Socket → SocketAddr → Outcome Socket

-- The local address: any, of the family of the target.
abbrev local_addr : SocketAddr → SocketAddr
local_addr target =
    if is_ipv4 target.ip
    then record { ip = v4 0 0 0 0; port = 0 }
    else record { ip = v6 (replicate 16 0); port = 0 }

abbrev and_then : {A B : Type 0} → Outcome A → (A → Outcome B) → Outcome B
and_then (ok a) f = f a
and_then (err e) f = err e
and_then panic f = panic
and_then stuck f = stuck

abbrev new : {Socket : Type 0} → Udp Socket → Bytes → ℕ → SocketAddr → Outcome (EventSink Socket)
new udp hostname procid target = and_then (udp.bind (local_addr target)) λ socket.
    and_then (udp.connect socket target)
      λ connected. ok (record { socket = connected; hostname = hostname; procid = procid })
