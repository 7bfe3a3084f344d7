-- ===== src/Commands/Safe.antt =====
-- No command of src/protocol/commands.rs panics, and the chunk size stays between MIN_CHUNK_SIZE
-- and MAX_CHUNK_SIZE, the size of RANDOM_CHUNK, so that no slice or index is out of range.
use open_rmbt_server.Common.{
  ℕ, zero, suc, ◌+◌, ◌-◌, ◌≤◌, ◌<◌, ◌≡◌, refl, ap, ◌≢◌, Bool, true, false, not, Option, none, some,
  [], ◌∷◌, arith, leb, ◌==◌, if◌then◌else◌, length, get_elem?,
}
use open_rmbt_server.Text.{Bytes, codes, eq_bytes, trim}
use open_rmbt_server.Config.Defs.{max_chunk_size}
use open_rmbt_server.Io.{Outcome, ok, err, panic, stuck, Wire}
use open_rmbt_server.Stats.{ConnStats, add_download, count_command}
use open_rmbt_server.Stream.Defs.{write_line}
use open_rmbt_server.Commands.Defs.{
  Session, Cmd, ◌>>=◌, ◌>>◌, pure, on, update_stats, some_or_panic, set_chunk_size, gettime_for,
  getchunks_for, put_all, write_report, slice, random_chunk, acknowledge, send_until,
  handle_gettime, send_count, handle_getchunks, is_due, report, receive, handle_put, handle_ping,
  dispatch, serve_one, command_loop, run_commands,
}
use open_rmbt_server.Commands.Keeps.{
  Post, InRange, Keeps, Any, HasSize, >>=-Keeps, pure-Keeps, if-Keeps, write_all-Keeps,
  read_line-Keeps, read_exact-Keeps, err-Keeps, out_of_fuel-Keeps, set_chunk_size-Keeps, some-Keeps,
  send_chunk-Keeps, elapsed-Keeps, now-Keeps, update_stats-Keeps, chunk_size-Keeps,
}

pub acknowledge-Keeps : (start : ℕ) → Keeps Any (acknowledge start)
unfolding acknowledge
acknowledge-Keeps start = >>=-Keeps Any Any _ _ read_line-Keeps λ ack _.
    if-Keeps Any (eq_bytes (trim ack) (codes "OK")) _ _
      (>>=-Keeps Any Any _ _ (elapsed-Keeps start) λ total_ns _. write_all-Keeps _) err-Keeps

pub send_until-Keeps :
    (fuel start max_ns : ℕ) (buf : Bytes) (sent : ℕ)
    → 0 < length buf
    → Keeps Any (send_until fuel start max_ns buf sent)
unfolding send_until
send_until-Keeps zero start max_ns buf sent h = out_of_fuel-Keeps
send_until-Keeps (suc fuel) start max_ns buf sent h =
    >>=-Keeps Any Any _ _ (elapsed-Keeps start) λ elapsed_ns _.
      >>=-Keeps (HasSize (length buf)) Any _ _ (send_chunk-Keeps (leb max_ns elapsed_ns) buf h)
        λ buf' l. >>=-Keeps InRange Any _ _ chunk_size-Keeps λ cs _.
          if-Keeps Any (leb max_ns elapsed_ns) _ _ (pure-Keeps Any _ tt)
            (send_until-Keeps fuel start max_ns buf' _ (omega arith))

pub send_count-Keeps : (n : ℕ) (buf : Bytes) → 0 < length buf → Keeps Any (send_count n buf)
unfolding send_count
send_count-Keeps zero buf h = pure-Keeps Any tt tt
send_count-Keeps (suc n) buf h =
    >>=-Keeps (HasSize (length buf)) Any _ _ (send_chunk-Keeps (n == 0) buf h)
      λ buf' l. send_count-Keeps n buf' (omega arith)

-- A chunk size in range is one that RANDOM_CHUNK has.
pub random_chunk-InRange :
    (random : ℕ → ℕ) (n : ℕ) (s : Session)
    → InRange n
    → random_chunk random n s ≡ (ok (slice random 0 n), s)
unfolding random_chunk some_or_panic
random_chunk-InRange random n s i = rw (le→leb n i.1) refl
  where
    le→leb : (n : ℕ) → n ≤ max_chunk_size → leb n max_chunk_size ≡ true
    le→leb n h = ground arith

pub length-slice : (random : ℕ → ℕ) (from n : ℕ) → length (slice random from n) ≡ n
unfolding slice
length-slice random from zero = refl
length-slice random from (suc n) = ap suc (length-slice random (from + 1) n)

pub random_chunk-Keeps :
    (random : ℕ → ℕ) (n : ℕ) → InRange n → Keeps (HasSize n) (random_chunk random n)
random_chunk-Keeps random n i = record {
  run = λ s r. rw (random_chunk-InRange random n s i) (r, length-slice random 0 n);
}

pub gettime_for-Keeps :
    (fuel : ℕ) (random : ℕ → ℕ) (o : Option ℕ) → Keeps Any (gettime_for fuel random o)
unfolding gettime_for
gettime_for-Keeps fuel random none = err-Keeps
gettime_for-Keeps fuel random (some seconds) = >>=-Keeps Any Any _ _ now-Keeps λ start _.
    >>=-Keeps InRange Any _ _ chunk_size-Keeps λ cs i.
      >>=-Keeps (HasSize cs) Any _ _ (random_chunk-Keeps random cs i) λ buf l.
        >>=-Keeps Any Any _ _ (send_until-Keeps fuel start _ buf 0 (omega (arith, i.0, l)))
          λ bytes_sent _. >>=-Keeps Any Any _ _ (elapsed-Keeps start) λ ns _.
            >>=-Keeps Any Any _ _ (update_stats-Keeps (add_download bytes_sent ns))
              λ _ _. acknowledge-Keeps start

pub getchunks_for-Keeps : (random : ℕ → ℕ) (o : Option ℕ) → Keeps Any (getchunks_for random o)
unfolding getchunks_for
getchunks_for-Keeps random none = err-Keeps
getchunks_for-Keeps random (some count) = >>=-Keeps Any Any _ _ now-Keeps λ start _.
    >>=-Keeps InRange Any _ _ chunk_size-Keeps λ cs i.
      >>=-Keeps (HasSize cs) Any _ _ (random_chunk-Keeps random cs i) λ buf l.
        >>=-Keeps Any Any _ _ (send_count-Keeps count buf (omega (arith, i.0, l))) λ _ _.
          >>=-Keeps Any Any _ _ (elapsed-Keeps start)
            λ ns _. >>=-Keeps Any Any _ _ (update_stats-Keeps _) λ _ _. acknowledge-Keeps start

-- A handler that goes on behind `set_chunk_size` keeps what its rest keeps.
pub argument-Keeps :
    (arg : Bytes) (rest : Cmd (Unit {0}))
    → Keeps Any rest
    → Keeps Any (set_chunk_size arg >>= λ fine. if not fine then pure tt else rest)
argument-Keeps arg rest h =
    >>=-Keeps Any Any _ _ (set_chunk_size-Keeps arg)
      λ fine _. if-Keeps Any (not fine) _ _ (pure-Keeps Any tt tt) h

write_report-Keeps : (elapsed_ns total : ℕ) → Keeps Any (write_report elapsed_ns total)
unfolding write_report
write_report-Keeps elapsed_ns total =
    >>=-Keeps Any Any _ _ (write_all-Keeps _) λ _ _. pure-Keeps Any (some elapsed_ns) tt

pub report-Keeps :
    (send_intermediate : Bool) (start total : ℕ) (last : Option ℕ)
    → Keeps Any (report send_intermediate start total last)
unfolding report
report-Keeps false start total last = pure-Keeps Any last tt
report-Keeps true start total last = >>=-Keeps Any Any _ _ (elapsed-Keeps start) λ elapsed_ns _.
    if-Keeps Any (is_due last elapsed_ns) _ _ (write_report-Keeps elapsed_ns total)
      (pure-Keeps Any last tt)

pub get_elem?-Keeps :
    (buf : Bytes) (i : ℕ) → i < length buf → Keeps Any (some_or_panic (get_elem? buf i))
get_elem?-Keeps [] i h = absurd (omega arith)
get_elem?-Keeps (x ∷ xs) zero h = some-Keeps Any x tt
get_elem?-Keeps (x ∷ xs) (suc i) h = get_elem?-Keeps xs i (omega arith)

pub receive-Keeps :
    (fuel : ℕ) (send_intermediate : Bool) (start total : ℕ) (last : Option ℕ)
    → Keeps Any (receive fuel send_intermediate start total last)
unfolding receive
receive-Keeps zero send_intermediate start total last = out_of_fuel-Keeps
receive-Keeps (suc fuel) send_intermediate start total last =
    >>=-Keeps InRange Any _ _ chunk_size-Keeps λ cs i.
      >>=-Keeps (HasSize cs) Any _ _ (read_exact-Keeps cs) λ buf l.
        >>=-Keeps Any Any _ _ (get_elem?-Keeps buf (cs - 1) (omega arith)) λ last_byte _.
          >>=-Keeps Any Any _ _ (report-Keeps send_intermediate start _ last) λ last' _.
            if-Keeps Any (last_byte == 0xff) _ _ (pure-Keeps Any _ tt)
              (receive-Keeps fuel send_intermediate start _ last')

pub put_all-Keeps :
    (fuel : ℕ) (send_intermediate : Bool) → Keeps Any (put_all fuel send_intermediate)
unfolding put_all
put_all-Keeps fuel send_intermediate = >>=-Keeps Any Any _ _ (write_all-Keeps (codes "OK\n")) λ _ _.
    >>=-Keeps Any Any _ _ now-Keeps λ start _.
      >>=-Keeps Any Any _ _ (receive-Keeps fuel send_intermediate start 0 none) λ total_bytes _.
        >>=-Keeps Any Any _ _ (elapsed-Keeps start)
          λ total_ns _. >>=-Keeps Any Any _ _ (update_stats-Keeps _) λ _ _. write_all-Keeps _

pub handle_ping-Keeps : Keeps Any handle_ping
unfolding handle_ping
handle_ping-Keeps = >>=-Keeps Any Any _ _ now-Keeps λ start _.
    >>=-Keeps Any Any _ _ (write_all-Keeps _) λ _ _. >>=-Keeps Any Any _ _ read_line-Keeps λ ack _.
      if-Keeps Any (eq_bytes (trim ack) (codes "OK")) _ _
        (>>=-Keeps Any Any _ _ (elapsed-Keeps start)
          λ ns _. >>=-Keeps Any Any _ _ (update_stats-Keeps _) λ _ _. write_all-Keeps _)
        err-Keeps

-- A counted command, and one that only replies.
counted-Keeps :
    (m : Cmd (Unit {0})) → Keeps Any m → Keeps Any (do update_stats count_command; m; pure false)
counted-Keeps m h =
    >>=-Keeps Any Any _ _ (update_stats-Keeps _)
      λ _ _. >>=-Keeps Any Any _ _ h λ _ _. pure-Keeps Any false tt

reply-Keeps : (line : Bytes) (quit : Bool) → Keeps Any (do on (write_line line); pure quit)
reply-Keeps line quit = >>=-Keeps Any Any _ _ (write_all-Keeps line) λ _ _. pure-Keeps Any quit tt

dispatch-Keeps :
    (fuel : ℕ) (random : ℕ → ℕ) (cmd arg1 arg2 : Bytes)
    → Keeps Any (dispatch fuel random cmd arg1 arg2)
unfolding dispatch handle_gettime handle_getchunks handle_put
dispatch-Keeps fuel random cmd arg1 arg2 =
    if-Keeps Any (eq_bytes cmd (codes "GETTIME")) _ _
      (counted-Keeps _ (argument-Keeps arg2 _ (gettime_for-Keeps fuel random _)))
      (if-Keeps Any (eq_bytes cmd (codes "GETCHUNKS")) _ _
        (counted-Keeps _ (argument-Keeps arg2 _ (getchunks_for-Keeps random _)))
        (if-Keeps Any (eq_bytes cmd (codes "PUT")) _ _
          (counted-Keeps _ (argument-Keeps arg1 _ (put_all-Keeps fuel true)))
          (if-Keeps Any (eq_bytes cmd (codes "PUTNORESULT")) _ _
            (counted-Keeps _ (argument-Keeps arg1 _ (put_all-Keeps fuel false)))
            (if-Keeps Any (eq_bytes cmd (codes "PING")) _ _ (counted-Keeps _ handle_ping-Keeps) (
              if-Keeps Any (eq_bytes cmd (codes "QUIT")) _ _ (reply-Keeps _ true)
                (reply-Keeps _ false))))))

pub serve_one-Keeps : (fuel : ℕ) (random : ℕ → ℕ) → Keeps Any (serve_one fuel random)
unfolding serve_one
serve_one-Keeps fuel random =
    >>=-Keeps Any Any _ _ (write_all-Keeps _)
      λ _ _. >>=-Keeps Any Any _ _ read_line-Keeps λ line _. dispatch-Keeps fuel random _ _ _

command_loop-Keeps :
    (rounds fuel : ℕ) (random : ℕ → ℕ) → Keeps Any (command_loop rounds fuel random)
unfolding command_loop
command_loop-Keeps zero fuel random = out_of_fuel-Keeps
command_loop-Keeps (suc rounds) fuel random =
    >>=-Keeps Any Any _ _ (serve_one-Keeps fuel random)
      λ quit _. if-Keeps Any quit _ _ (pure-Keeps Any tt tt) (command_loop-Keeps rounds fuel random)

-- Whatever the client sends, and however the stream fails, the command loop does not panic, and
-- the chunk size that it ends with is between 4096 and 4194304.
pub run_commands_safe :
    (rounds fuel : ℕ) (random : ℕ → ℕ) (stats : ConnStats) (wire : Wire)
    → InRange (run_commands rounds fuel random stats wire).1.chunk_size
      × ((run_commands rounds fuel random stats wire).0 ≢ panic)
unfolding run_commands
run_commands_safe rounds fuel random stats wire =
    let safe =
      (command_loop-Keeps rounds fuel random).run
        (record { wire = wire; chunk_size = 4096; stats = stats }) (omega arith, omega arith) in
    (safe.0, not_panic _ safe.1)
  where
    not_panic : (r : Outcome (Unit {0})) → Post Any r → r ≢ panic
    not_panic (ok a) h = λ e. cc
    not_panic (err a) h = λ e. cc
    not_panic panic h = absurd h
    not_panic stuck h = λ e. cc
