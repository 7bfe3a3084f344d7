-- ===== src/Server/Defs.antt =====
-- src/server/mod.rs: the round-robin dispatch of `Server::run`, the bounded queues made by
-- `Server::new`, a worker's connection ids, and how a session ends. Sockets and threads are not
-- modelled: a connection is a number, and a worker's step is to take the oldest job of its queue.
use open_rmbt_server.Common.{
  ℕ, zero, suc, ◌+◌, ◌*◌, ◌/◌, ◌%◌, ◌^◌, Bool, true, false, Option, none, some, List, [], ◌∷◌, ◌++◌,
  ltb, ◌==◌, if◌then◌else◌, length, get_elem?, replicate,
}
use open_rmbt_server.Text.{Bytes, codes, show}
use open_rmbt_server.Address.{IpAddr, v4, v6, segment}
use open_rmbt_server.Io.{
  ErrorKind, unexpected_eof, connection_reset, connection_aborted, broken_pipe, Outcome, ok, err,
  panic, stuck,
}
use open_rmbt_server.Events.Escape.{hex_digit}

pub data Job : Type 0 where
  connection : ℕ → Bool → Job
  shutdown : Job

-- A worker: the jobs in its channel, oldest first, the connections that it handled with their
-- ids, newest first, and `conn_seq`.
pub record Worker : Type 0 where
  pub queue : List Job
  pub handled : List (ℕ × ℕ)
  pub conn_seq : ℕ

-- The workers in the order of `senders`, and what `run` and the model keep: `next_worker`, and
-- the connections that were dropped, newest first.
pub record Pool : Type 0 where
  pub workers : List Worker
  pub next_worker : ℕ
  pub dropped : List ℕ

abbrev pub capacity : ℕ
capacity = 8

abbrev pub new_worker : Worker
new_worker = record { queue = []; handled = []; conn_seq = 0 }

unfoldable pub new_pool : ℕ → Pool
new_pool num_workers = record {
  workers = replicate num_workers new_worker;
  next_worker = 0;
  dropped = [];
}

-- `try_send` on a channel whose receiver lives: `none` when it is full.
unfoldable pub try_send : Job → Worker → Option Worker
try_send job w =
    if ltb (length w.queue) capacity then some (record w { queue = w.queue ++ job ∷ [] }) else none

unfoldable pub set_worker : ℕ → Worker → List Worker → List Worker
set_worker i w [] = []
set_worker zero w (x ∷ xs) = w ∷ xs
set_worker (suc i) w (x ∷ xs) = x ∷ set_worker i w xs

abbrev pub drop_or_send : ℕ → ℕ → Pool → Option Worker → Pool
drop_or_send conn i p none = record p { dropped = conn ∷ p.dropped }
drop_or_send conn i p (some w) = record p { workers = set_worker i w p.workers }

abbrev pub send_to : ℕ → Bool → ℕ → Pool → Option Worker → Option Pool
send_to conn is_tls i p none = none
send_to conn is_tls i p (some w) =
    some (drop_or_send conn i p (try_send (connection conn is_tls) w))

-- One accepted connection. `none` is the panic of `% 0` or of an index out of range; `next_worker`
-- is a `usize` of 64 bits.
unfoldable pub dispatch_connection : ℕ → Bool → Pool → Option Pool
unfolding try_send set_worker
dispatch_connection conn is_tls p =
    let n = length p.workers in
    let i = p.next_worker % n in
    let p' = record p { next_worker = (p.next_worker + 1) % 2 ^ 64 } in
    if n == 0 then none else send_to conn is_tls i p' (get_elem? p.workers i)

-- `id * 100_000 + conn_seq`, in a `usize`.
abbrev pub conn_id : ℕ → ℕ → ℕ
conn_id id conn_seq = (id * 100000 + conn_seq) % 2 ^ 64

-- One job taken by worker `id`: the new worker, or `none` when it leaves its loop.
unfoldable pub handle_job : ℕ → Job → Worker → Option Worker
handle_job id shutdown w = none
handle_job id (connection conn is_tls) w = some (record w {
  handled = (conn, conn_id id ((w.conn_seq + 1) % 2 ^ 64)) ∷ w.handled;
  conn_seq = (w.conn_seq + 1) % 2 ^ 64;
})

-- `recv_timeout` and the match on the job; on an empty queue the loop goes on.
abbrev pub take_job : ℕ → List Job → Worker → Option Worker
take_job id [] w = some w
take_job id (job ∷ jobs) w = handle_job id job (record w { queue = jobs })

unfoldable pub work : ℕ → Worker → Option Worker
unfolding handle_job
work id w = take_job id w.queue w

-- The last loop of `run`: a worker whose queue is full is not told.
unfoldable pub stop_workers : List Worker → List Worker
unfolding try_send
stop_workers [] = []
stop_workers (w ∷ ws) =
    let rest = stop_workers ws in
    elim (try_send shutdown w) [ none ↦ w ∷ rest | some w' ↦ w' ∷ rest ]

-- The errors that mean that the peer went away.
unfoldable pub is_client_disconnect : ErrorKind → Bool
is_client_disconnect unexpected_eof = true
is_client_disconnect connection_reset = true
is_client_disconnect connection_aborted = true
is_client_disconnect broken_pipe = true
is_client_disconnect _ = false

-- The end reason of a session whose command loop returned; a panic takes the thread with it.
unfoldable pub end_reason : Outcome (Unit {0}) → Option Bytes
unfolding is_client_disconnect
end_reason (ok _) = some (codes "quit")
end_reason (err e) = some (if is_client_disconnect e then codes "disconnect" else codes "error")
end_reason panic = none
end_reason stuck = none

-- `{:x}` for a segment: no leading zeros.
unfoldable pub show_hex : ℕ → Bytes
show_hex n =
    if ltb n 16
    then hex_digit n ∷ []
    else if ltb n 256
    then hex_digit (n / 16) ∷ hex_digit (n % 16) ∷ []
    else if ltb n 4096
    then hex_digit (n / 256) ∷ hex_digit (n / 16 % 16) ∷ hex_digit (n % 16) ∷ []
    else hex_digit (n / 4096)
      ∷ hex_digit (n / 256 % 16)
      ∷ hex_digit (n / 16 % 16)
      ∷ hex_digit (n % 16)
      ∷ []

unfoldable pub anonymise_addr : IpAddr → Bytes
unfolding show_hex
anonymise_addr (v4 a b c d) = show a ++ (b'.' ∷ (show b ++ (b'.' ∷ (show c ++ codes ".*"))))
anonymise_addr (v6 o) =
    show_hex (segment o 0)
    ++ (b':' ∷ (show_hex (segment o 1) ++ (b':' ∷ (show_hex (segment o 2) ++ codes ":*"))))
