-- ===== src/Commands/Defs.antt =====
-- The handlers of src/protocol/commands.rs. `random` is RANDOM_CHUNK, byte by byte; it has
-- MAX_CHUNK_SIZE bytes. A loop without a bound takes fuel, and `stuck` says that it ran out.
use open_rmbt_server.Common.{
  ℕ, zero, suc, ◌+◌, ◌-◌, ◌*◌, ◌%◌, ◌^◌, Bool, true, false, not, ◌&&◌, ◌||◌, Option, none, some, [],
  ◌∷◌, ◌++◌, ltb, leb, ◌==◌, if◌then◌else◌, get_elem?, is_empty,
}
use open_rmbt_server.Text.{
  Bytes, codes, eq_bytes, splitn, next_or, rest_of, trim, parse_unsigned, u32_max, u64_max, show,
}
use open_rmbt_server.Config.Defs.{
  chunk_size_default, min_chunk_size, max_chunk_size, max_chunks, max_seconds,
}
use open_rmbt_server.Io.{Outcome, ok, err, panic, stuck, Io, Wire}
use open_rmbt_server.Io
use open_rmbt_server.Stats.{ConnStats, add_download, add_upload, add_ping, count_command}
use open_rmbt_server.Stream.Defs.{read_line, write_all, write_line, read_exact}

-- What a handler works on: the stream, and the two values behind `&mut`.
pub record Session : Type 0 where
  pub wire : Wire
  pub chunk_size : ℕ
  pub stats : ConnStats

abbrev pub Cmd : Type 0 → Type 0
Cmd A = Session → Outcome A × Session

-- What follows an outcome: the rest on success, and nothing otherwise.
abbrev pub after : {A B : Type 0} → Outcome A → Session → (A → Cmd B) → Outcome B × Session
after (ok a) s f = f a s
after (err e) s f = (err e, s)
after panic s f = (panic, s)
after stuck s f = (stuck, s)

infixl 5 ◌>>=◌ ◌>>◌
unfoldable pub ◌>>=◌ : {A B : Type 0} → Cmd A → (A → Cmd B) → Cmd B
m >>= f = λ s. after (m s).0 (m s).1 f

abbrev pub ◌>>◌ : {A B : Type 0} → Cmd A → Cmd B → Cmd B
m >> k = m >>= λ _. k

unfoldable pub pure : {A : Type 0} → A → Cmd A
pure a s = (ok a, s)

-- A call on the stream.
unfoldable pub on : {A : Type 0} → Io A → Cmd A
on m s = let (r, w) = m s.wire in (r, record s { wire = w })

unfoldable pub gets : {A : Type 0} → (Session → A) → Cmd A
gets f s = (ok (f s), s)

unfoldable pub update_stats : (ConnStats → ConnStats) → Cmd (Unit {0})
update_stats f s = (ok tt, record s { stats = f s.stats })

unfoldable pub some_or_panic : {A : Type 0} → Option A → Cmd A
some_or_panic none s = (panic, s)
some_or_panic (some a) s = (ok a, s)

unfoldable pub out_of_fuel : {A : Type 0} → Cmd A
out_of_fuel s = (stuck, s)

-- `*chunk_size = cs`; the handler goes on.
unfoldable pub store_chunk_size : ℕ → Cmd Bool
store_chunk_size cs s = (ok true, record s { chunk_size = cs })

-- `start.elapsed().as_nanos()`, which is 0 if the clock went back.
unfoldable pub elapsed : ℕ → Cmd ℕ
elapsed start s = (
  ok (s.wire.ticks s.wire.tick - start),
  record s { wire = record (s.wire) { tick = s.wire.tick + 1 } },
)

abbrev accept_line : Bytes
accept_line = codes "ACCEPT GETCHUNKS GETTIME PUT PUTNORESULT PING QUIT\n"

unfoldable pub parse_chunk_size : Bytes → ℕ → Option ℕ
unfolding parse_unsigned
parse_chunk_size s limit = elim (parse_unsigned u64_max s) [
  | none ↦ none
  | some n ↦ if ltb n min_chunk_size || ltb limit n then none else some n
]

unfoldable pub choose_chunk_size : Option ℕ → Cmd Bool
choose_chunk_size (some cs) = store_chunk_size cs
choose_chunk_size none = do on (write_line (codes "ERR\n")); pure false

-- The optional chunk-size argument: `false` means that the handler has replied ERR and returns.
unfoldable pub set_chunk_size : Bytes → Cmd Bool
set_chunk_size arg =
    if is_empty arg then pure true else choose_chunk_size (parse_chunk_size arg max_chunk_size)

-- The first `n` bytes of a text with the bytes `random from`, `random (from + 1)` and so on.
unfoldable pub slice : (ℕ → ℕ) → ℕ → ℕ → Bytes
slice random from zero = []
slice random from (suc n) = random from ∷ slice random (from + 1) n

-- `RANDOM_CHUNK[..n].to_vec()`, which panics beyond the MAX_CHUNK_SIZE bytes that there are.
unfoldable pub random_chunk : (ℕ → ℕ) → ℕ → Cmd Bytes
unfolding slice
random_chunk random n =
    some_or_panic (if leb n max_chunk_size then some (slice random 0 n) else none)

-- `*buf.last_mut().unwrap() = b`; `none` is the panic.
unfoldable pub set_last : ℕ → Bytes → Option Bytes
set_last b [] = none
set_last b (x ∷ xs) = elim xs [
  | [] ↦ some (b ∷ [])
  | _ ↦ elim (set_last b xs) [ none ↦ none | some ys ↦ some (x ∷ ys) ]
]

abbrev pub mark : Bool → ℕ
mark terminal = if terminal then 0xff else 0x00

-- One chunk: the last byte is set, and the buffer sent.
unfoldable pub send_chunk : Bool → Bytes → Cmd Bytes
send_chunk terminal buf = do
  buf' ← some_or_panic (set_last (mark terminal) buf)
  on (write_all buf')
  pure buf'

-- The end of a download: the client's OK, and the time.
unfoldable pub acknowledge : ℕ → Cmd (Unit {0})
acknowledge start = do
  ack ← on read_line
  if eq_bytes (trim ack) (codes "OK")
      then (do
        total_ns ← elapsed start
        on (write_line (codes "TIME " ++ (show total_ns ++ codes "\n"))))
      else on (write_line (codes "ERR\n"))

-- The loop of GETTIME; the result is `bytes_sent`.
unfoldable pub send_until : ℕ → ℕ → ℕ → Bytes → ℕ → Cmd ℕ
send_until zero start max_ns buf bytes_sent = out_of_fuel
send_until (suc fuel) start max_ns buf bytes_sent = do
  elapsed_ns ← elapsed start
  let terminal = leb max_ns elapsed_ns
  buf' ← send_chunk terminal buf
  cs ← gets (λ s. s.chunk_size)
  let bytes_sent' = (bytes_sent + cs) % 2 ^ 64
  if terminal then pure bytes_sent' else send_until fuel start max_ns buf' bytes_sent'

-- A number in 1..=limit, read as `u32`.
unfoldable pub parse_count : ℕ → Bytes → Option ℕ
unfolding parse_unsigned
parse_count limit arg = elim (parse_unsigned u32_max arg) [
  | none ↦ none
  | some n ↦ if ltb 0 n && leb n limit then some n else none
]

-- GETTIME behind its arguments.
unfoldable pub gettime_for : ℕ → (ℕ → ℕ) → Option ℕ → Cmd (Unit {0})
gettime_for fuel random none = on (write_line (codes "ERR\n"))
gettime_for fuel random (some seconds) = do
  start ← on Io.now
  cs ← gets (λ s. s.chunk_size)
  buf ← random_chunk random cs
  bytes_sent ← send_until fuel start (seconds * 1000000000) buf 0
  ns ← elapsed start
  update_stats (add_download bytes_sent ns)
  acknowledge start

unfoldable pub handle_gettime : ℕ → (ℕ → ℕ) → Bytes → Bytes → Cmd (Unit {0})
handle_gettime fuel random arg_secs arg_chunk = do
  fine ← set_chunk_size arg_chunk
  if not fine then pure tt else gettime_for fuel random (parse_count max_seconds arg_secs)

-- `for i in 1..=count`, by the rounds left: the last one is terminal.
unfoldable pub send_count : ℕ → Bytes → Cmd (Unit {0})
send_count zero buf = pure tt
send_count (suc n) buf = do buf' ← send_chunk (n == 0) buf; send_count n buf'

-- GETCHUNKS behind its arguments.
unfoldable pub getchunks_for : (ℕ → ℕ) → Option ℕ → Cmd (Unit {0})
getchunks_for random none = on (write_line (codes "ERR\n"))
getchunks_for random (some count) = do
  start ← on Io.now
  cs ← gets (λ s. s.chunk_size)
  buf ← random_chunk random cs
  send_count count buf
  ns ← elapsed start
  update_stats (add_download (count * cs % 2 ^ 64) ns)
  acknowledge start

unfoldable pub handle_getchunks : (ℕ → ℕ) → Bytes → Bytes → Cmd (Unit {0})
handle_getchunks random arg_count arg_chunk = do
  fine ← set_chunk_size arg_chunk
  if not fine then pure tt else getchunks_for random (parse_count max_chunks arg_count)

-- Is a report due? `none` is the initial `i128::MIN`.
abbrev pub is_due : Option ℕ → ℕ → Bool
is_due none elapsed_ns = true
is_due (some last) elapsed_ns = leb (last + 1000000) elapsed_ns

-- The line of a report, and the new `last_report_ns`.
unfoldable pub write_report : ℕ → ℕ → Cmd (Option ℕ)
write_report elapsed_ns total_bytes = do
  on (
      write_line (
        codes "TIME "
        ++ (show elapsed_ns ++ (codes " BYTES " ++ (show total_bytes ++ codes "\n")))))
  pure (some elapsed_ns)

-- The report after one chunk: only for PUT, and only if one is due.
unfoldable pub report : Bool → ℕ → ℕ → Option ℕ → Cmd (Option ℕ)
report false start total_bytes last = pure last
report true start total_bytes last = do
  elapsed_ns ← elapsed start
  if is_due last elapsed_ns then write_report elapsed_ns total_bytes else pure last

-- The loop of PUT; the result is `total_bytes`.
unfoldable pub receive : ℕ → Bool → ℕ → ℕ → Option ℕ → Cmd ℕ
receive zero send_intermediate start total_bytes last = out_of_fuel
receive (suc fuel) send_intermediate start total_bytes last = do
  cs ← gets (λ s. s.chunk_size)
  buf ← on (read_exact cs)
  let total_bytes' = (total_bytes + cs) % 2 ^ 64
  last_byte ← some_or_panic (get_elem? buf (cs - 1))
  last' ← report send_intermediate start total_bytes' last
  if last_byte == 0xff
      then pure total_bytes'
      else receive fuel send_intermediate start total_bytes' last'

-- PUT behind its argument.
unfoldable pub put_all : ℕ → Bool → Cmd (Unit {0})
put_all fuel send_intermediate = do
  on (write_line (codes "OK\n"))
  start ← on Io.now
  total_bytes ← receive fuel send_intermediate start 0 none
  total_ns ← elapsed start
  update_stats (add_upload total_bytes total_ns)
  on (write_line (codes "TIME " ++ (show total_ns ++ codes "\n")))

unfoldable pub handle_put : ℕ → Bytes → Bool → Cmd (Unit {0})
handle_put fuel arg_chunk send_intermediate = do
  fine ← set_chunk_size arg_chunk
  if not fine then pure tt else put_all fuel send_intermediate

unfoldable pub handle_ping : Cmd (Unit {0})
handle_ping = do
  start ← on Io.now
  on (write_line (codes "PONG\n"))
  ack ← on read_line
  if eq_bytes (trim ack) (codes "OK")
      then (do
        ns ← elapsed start
        update_stats (add_ping ns)
        on (write_line (codes "TIME " ++ (show ns ++ codes "\n"))))
      else on (write_line (codes "ERR\n"))

-- The `match cmd`; `true` means that the loop ends.
unfoldable pub dispatch : ℕ → (ℕ → ℕ) → Bytes → Bytes → Bytes → Cmd Bool
dispatch fuel random cmd arg1 arg2 =
    if eq_bytes cmd (codes "GETTIME")
    then (do update_stats count_command; handle_gettime fuel random arg1 arg2; pure false)
    else if eq_bytes cmd (codes "GETCHUNKS")
    then (do update_stats count_command; handle_getchunks random arg1 arg2; pure false)
    else if eq_bytes cmd (codes "PUT")
    then (do update_stats count_command; handle_put fuel arg1 true; pure false)
    else if eq_bytes cmd (codes "PUTNORESULT")
    then (do update_stats count_command; handle_put fuel arg1 false; pure false)
    else if eq_bytes cmd (codes "PING")
    then (do update_stats count_command; handle_ping; pure false)
    else if eq_bytes cmd (codes "QUIT")
    then (do on (write_line (codes "BYE\n")); pure true)
    else (do on (write_line (codes "ERR\n")); pure false)

-- The fields of a command line: the command, and two arguments, trimmed.
unfoldable pub command_of : Bytes → Bytes × Bytes × Bytes
command_of line =
    let parts = splitn 3 b' ' (trim line) in
    (
      next_or [] parts,
      trim (next_or [] (rest_of parts)),
      trim (next_or [] (rest_of (rest_of parts))),
    )

-- One round of the loop.
unfoldable pub serve_one : ℕ → (ℕ → ℕ) → Cmd Bool
serve_one fuel random = do
  on (write_line accept_line)
  line ← on read_line
  let (cmd, arg1, arg2) = command_of line
  dispatch fuel random cmd arg1 arg2

-- `rounds` bounds the commands, `fuel` each loop inside a command.
unfoldable pub command_loop : ℕ → ℕ → (ℕ → ℕ) → Cmd (Unit {0})
command_loop zero fuel random = out_of_fuel
command_loop (suc rounds) fuel random = do
  quit ← serve_one fuel random
  if quit then pure tt else command_loop rounds fuel random

-- The chunk size starts at the default.
unfoldable pub run_commands : ℕ → ℕ → (ℕ → ℕ) → ConnStats → Io.Wire → Outcome (Unit {0}) × Session
run_commands rounds fuel random stats wire =
    command_loop rounds fuel random
      (record { wire = wire; chunk_size = chunk_size_default; stats = stats })
