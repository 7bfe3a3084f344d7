-- ===== src/Commands/Ends.antt =====
-- The command loop of src/protocol/commands.rs ends: every command takes a line from the client,
-- every round of an upload a chunk, and a timed download stops with the clock.
use open_rmbt_server.Common.{
  length, ℕ, zero, suc, ◌+◌, ◌-◌, ◌*◌, ◌≤◌, ◌<◌, ◌≡◌, refl, subst, ◌≢◌, Bool, true, false, Option,
  none, some, arith,
}
use open_rmbt_server.Text.{Bytes, codes, eq_bytes}
use open_rmbt_server.Io.{Outcome, ok, err, panic, stuck, Wire}
use open_rmbt_server.Io.Tame.{left}
use open_rmbt_server.Config.Defs.{max_seconds}
use open_rmbt_server.Stats.{ConnStats, count_command}
use open_rmbt_server.Stream.Defs.{write_line}
use open_rmbt_server.Commands.Defs.{
  Session, Cmd, ◌>>=◌, ◌>>◌, pure, on, gets, update_stats, slice, gettime_for, put_all, send_until,
  handle_gettime, handle_getchunks, handle_put, dispatch, serve_one, command_loop, run_commands,
}
use open_rmbt_server.Commands.Keeps.{
  Keeps, Any, write_all-Keeps, read_line-Keeps, elapsed-Keeps, now-Keeps, update_stats-Keeps,
}
use open_rmbt_server.Commands.Safe.{
  length-slice, random_chunk-InRange, send_until-Keeps, gettime_for-Keeps, getchunks_for-Keeps,
  argument-Keeps, receive-Keeps, put_all-Keeps, handle_ping-Keeps, serve_one-Keeps,
}
use open_rmbt_server.Commands.Halts.{
  Advances, Owes, Owes_then, after-Owes, Ready, Halts, >>=-Halts, reads-Halts, less-Halts,
  pure-Halts, if-Halts, write-Halts, line-Halts, update_stats-Halts, elapsed-Halts, now-Halts,
}
use open_rmbt_server.Commands.Timed.{send_until-Ends}
use open_rmbt_server.Commands.Steps.{
  parse_count_le, err-Halts, account-Halts, getchunks_for-Halts, argument-Halts, handle_ping-Halts,
  receive-Halts,
}

module _ (fuel k : ℕ) where
  -- A loop on all the fuel.
  fuelled-Halts : {A : Type 0} (m : Cmd A) → Halts fuel fuel 0 m → Halts fuel k 0 m
  fuelled-Halts m h = record { run = λ s r l. h.run s r r.enough }

  put_all-Halts : (send_intermediate : Bool) → Halts fuel k 0 (put_all fuel send_intermediate)
  unfolding put_all
  put_all-Halts send_intermediate =
      >>=-Halts fuel Any k 0 _ _ (write_all-Keeps (codes "OK\n")) (write-Halts fuel k _) λ _ _.
        >>=-Halts fuel Any k 0 _ _ now-Keeps (now-Halts fuel k) λ start _.
          >>=-Halts fuel Any k 0 _ _ (receive-Keeps fuel send_intermediate start 0 none)
            (fuelled-Halts _ (receive-Halts fuel fuel send_intermediate start 0 none))
            λ total_bytes _.
              >>=-Halts fuel Any k 0 _ _ (elapsed-Keeps start) (elapsed-Halts fuel k start)
                λ total_ns _.
                  >>=-Halts fuel Any k 0 _ _ (update_stats-Keeps _) (update_stats-Halts fuel k _)
                    λ _ _. write-Halts fuel k _

  timed-Owes :
      (n : ℕ) (random : ℕ → ℕ) (seconds : ℕ) (s : Session)
      → fuel ≡ suc n
      → seconds ≤ max_seconds
      → Ready fuel s
      → left s.wire < k
      → Owes 0 s (gettime_for fuel random (some seconds) s)
  unfolding gettime_for ◌>>=◌ on gets left
  timed-Owes n random seconds s f h r l =
      let w = s.wire in
      let s1 = record s { wire = record w { tick = w.tick + 1 } } in
      let start = w.ticks w.tick in
      let buf = slice random 0 s.chunk_size in
      let x = send_until fuel start (seconds * 1000000000) buf 0 s1 in
      let r1 : Ready fuel s1 = record {
        range = r.range;
        clock = r.clock;
        enough = omega (arith, r.enough);
      } in
      let p : 0 < length (slice random 0 s.chunk_size) =
        omega (arith, length-slice random 0 s.chunk_size, r.range.0) in
      rw (random_chunk-InRange random s.chunk_size s1 r.range) (
        Owes_then fuel s s1 0 0 _ refl (omega arith) (
          after-Owes fuel Any k 0 0 _ s1 x.1 x.0 r1 (omega (arith, l))
            ((send_until-Keeps fuel start _ buf 0 p).run s1 r.range)
            (rw f (
              send_until-Ends fuel start (seconds * 1000000000) n 0 buf s1 p r.range
                (within (r.clock w.tick))))
            λ bytes_sent _. account-Halts fuel k start _))
    where
      within :
          s.wire.ticks s.wire.tick + 30000000000 ≤ s.wire.ticks (s.wire.tick + fuel)
          → s.wire.ticks s.wire.tick + seconds * 1000000000 ≤ s.wire.ticks (s.wire.tick + 1 + n)
      within e =
          subst (λ j. s.wire.ticks s.wire.tick + seconds * 1000000000 ≤ s.wire.ticks j) next_tick
            (omega (arith, e, h))
        where
          next_tick : s.wire.tick + fuel ≡ s.wire.tick + 1 + n
          next_tick = omega (arith, f)

  gettime_for-Halts :
      (random : ℕ → ℕ) (o : Option ℕ)
      → ((n : ℕ) → o ≡ some n → n ≤ max_seconds)
      → Halts fuel k 0 (gettime_for fuel random o)
  gettime_for-Halts random none h = unfold gettime_for in err-Halts fuel k
  gettime_for-Halts random (some seconds) h = record {
    run = λ s r l.
        timed-Owes (fuel - 1) random seconds s (omega (arith, r.enough)) (h seconds refl) r l;
  }

  counted-Halts :
      (m : Cmd (Unit {0}))
      → Keeps Any m
      → Halts fuel k 0 m
      → Halts fuel k 0 (do update_stats count_command; m; pure false)
  counted-Halts m i h =
      >>=-Halts fuel Any k 0 _ _ (update_stats-Keeps _) (update_stats-Halts fuel k _)
        λ _ _. >>=-Halts fuel Any k 0 _ _ i h λ _ _. pure-Halts fuel k false

  reply-Halts : (line : Bytes) (quit : Bool) → Halts fuel k 0 (do on (write_line line); pure quit)
  reply-Halts line quit =
      >>=-Halts fuel Any k 0 _ _ (write_all-Keeps line) (write-Halts fuel k line)
        λ _ _. pure-Halts fuel k quit

  dispatch-Halts :
      (random : ℕ → ℕ) (cmd arg1 arg2 : Bytes) → Halts fuel k 0 (dispatch fuel random cmd arg1 arg2)
  unfolding dispatch handle_gettime handle_getchunks handle_put
  dispatch-Halts random cmd arg1 arg2 =
      if-Halts fuel k 0 (eq_bytes cmd (codes "GETTIME")) _ _
        (counted-Halts _ (argument-Keeps arg2 _ (gettime_for-Keeps fuel random _)) (
          argument-Halts fuel k arg2 _
            (gettime_for-Halts random _ (parse_count_le max_seconds arg1))))
        (if-Halts fuel k 0 (eq_bytes cmd (codes "GETCHUNKS")) _ _
          (counted-Halts _ (argument-Keeps arg2 _ (getchunks_for-Keeps random _))
            (argument-Halts fuel k arg2 _ (getchunks_for-Halts fuel k random _)))
          (if-Halts fuel k 0 (eq_bytes cmd (codes "PUT")) _ _
            (counted-Halts _ (argument-Keeps arg1 _ (put_all-Keeps fuel true))
              (argument-Halts fuel k arg1 _ (put_all-Halts true)))
            (if-Halts fuel k 0 (eq_bytes cmd (codes "PUTNORESULT")) _ _
              (counted-Halts _ (argument-Keeps arg1 _ (put_all-Keeps fuel false))
                (argument-Halts fuel k arg1 _ (put_all-Halts false)))
              (if-Halts fuel k 0 (eq_bytes cmd (codes "PING")) _ _
                (counted-Halts _ handle_ping-Keeps (handle_ping-Halts fuel k))
                (if-Halts fuel k 0 (eq_bytes cmd (codes "QUIT")) _ _ (reply-Halts _ true)
                  (reply-Halts _ false))))))

-- A round takes a line.
serve_one-Halts : (fuel k : ℕ) (random : ℕ → ℕ) → Halts fuel (suc k) 1 (serve_one fuel random)
unfolding serve_one
serve_one-Halts fuel k random =
    >>=-Halts fuel Any (suc k) 1 _ _ (write_all-Keeps _) (write-Halts fuel (suc k) _) λ _ _.
      reads-Halts fuel Any k _ _ read_line-Keeps (line-Halts fuel (suc k))
        λ line _. dispatch-Halts fuel k random _ _ _

command_loop-Halts :
    (fuel rounds : ℕ) (random : ℕ → ℕ) → Halts fuel rounds 0 (command_loop rounds fuel random)
unfolding command_loop
command_loop-Halts fuel zero random = record { run = λ s r l. absurd (omega (arith, l)) }
command_loop-Halts fuel (suc rounds) random = less-Halts fuel (suc rounds) 1 _ (
    reads-Halts fuel Any rounds _ _ (serve_one-Keeps fuel random)
      (serve_one-Halts fuel rounds random)
      λ quit _.
        if-Halts fuel rounds 0 quit _ _ (pure-Halts fuel rounds tt)
          (command_loop-Halts fuel rounds random))

-- With more rounds and more fuel than there are bytes and frames still to come from the client, and
-- a clock on which 30 seconds go by in as many readings as there is fuel, the command loop does not
-- run out of fuel: it returns or fails.
pub run_commands_ends :
    (rounds fuel : ℕ) (random : ℕ → ℕ) (stats : ConnStats) (wire : Wire)
    → left wire < rounds
    → left wire < fuel
    → Advances fuel wire.ticks
    → (run_commands rounds fuel random stats wire).0 ≢ stuck
unfolding run_commands
run_commands_ends rounds fuel random stats wire h i clock =
    let s : Session = record { wire = wire; chunk_size = 4096; stats = stats } in
    not_stuck s _ (
      (command_loop-Halts fuel rounds random).run s
        (record { range = (omega arith, omega arith); clock = clock; enough = i }) h)
  where
    not_stuck : (s : Session) (x : Outcome (Unit {0}) × Session) → Owes 0 s x → x.0 ≢ stuck
    not_stuck s (ok a, t) h = λ e. cc
    not_stuck s (err a, t) h = λ e. cc
    not_stuck s (panic, t) h = λ e. cc
    not_stuck s (stuck, t) h = absurd h
