-- ===== src/Commands/Steps.antt =====
-- The handlers of src/protocol/commands.rs but GETTIME come to a result.
use open_rmbt_server.Common.{
  ℕ, zero, suc, ◌-◌, ◌≤◌, ◌<◌, ◌≡◌, inl, inr, Bool, true, false, not, Option, none, some, arith,
  ◌==◌, if◌then◌else◌, Option-cases, length,
}
use open_rmbt_server.Text.{Bytes, codes, eq_bytes, trim, parse_unsigned, u32_max}
use open_rmbt_server.Io.{Outcome, ok, err, panic, stuck}
use open_rmbt_server.Stats.{ConnStats}
use open_rmbt_server.Stream.Defs.{write_line}
use open_rmbt_server.Commands.Defs.{
  Session, Cmd, ◌>>=◌, ◌>>◌, pure, on, update_stats, elapsed, set_chunk_size, send_chunk,
  random_chunk, parse_count, getchunks_for, write_report, acknowledge, send_count, is_due, report,
  receive, handle_ping,
}
use open_rmbt_server.Commands.Keeps.{
  InRange, Any, HasSize, write_all-Keeps, read_line-Keeps, read_exact-Keeps, set_chunk_size-Keeps,
  send_chunk-Keeps, elapsed-Keeps, now-Keeps, update_stats-Keeps, chunk_size-Keeps,
}
use open_rmbt_server.Commands.Safe.{
  random_chunk-Keeps, send_count-Keeps, report-Keeps, get_elem?-Keeps,
}
use open_rmbt_server.Commands.Halts.{
  Owes, Halts, >>=-Halts, reads-Halts, less-Halts, pure-Halts, if-Halts, write-Halts, line-Halts,
  exact-Halts, gets-Halts, update_stats-Halts, elapsed-Halts, now-Halts, some_or_panic-Halts,
  set_chunk_size-Halts,
}
use open_rmbt_server.Commands.Timed.{Chunked, send_chunk-Chunked}

pub parse_count_le : (limit : ℕ) (arg : Bytes) (n : ℕ) → parse_count limit arg ≡ some n → n ≤ limit
unfolding parse_count
parse_count_le limit arg n h = elim (Option-cases (parse_unsigned u32_max arg)) [
  | inl e ↦ absurd (ground arith)
  | inr (m, e) ↦ ground arith
]

module _ (fuel k : ℕ) where
  pub err-Halts : Halts fuel k 0 (on (write_line (codes "ERR\n")))
  err-Halts = write-Halts fuel k _

  acknowledge-Halts : (start : ℕ) → Halts fuel k 0 (acknowledge start)
  unfolding acknowledge
  acknowledge-Halts start =
      >>=-Halts fuel Any k 0 _ _ read_line-Keeps (less-Halts fuel k 1 _ (line-Halts fuel k))
        λ ack _.
          if-Halts fuel k 0 (eq_bytes (trim ack) (codes "OK")) _ _
            (>>=-Halts fuel Any k 0 _ _ (elapsed-Keeps start) (elapsed-Halts fuel k start)
              λ ns _. write-Halts fuel k _)
            err-Halts

  -- A download that was sent: the time, the account, and the client's word.
  pub account-Halts :
      (start : ℕ) (f : ℕ → ConnStats → ConnStats)
      → Halts fuel k 0 (do ns ← elapsed start; update_stats (f ns); acknowledge start)
  account-Halts start f =
      >>=-Halts fuel Any k 0 _ _ (elapsed-Keeps start) (elapsed-Halts fuel k start) λ ns _.
        >>=-Halts fuel Any k 0 _ _ (update_stats-Keeps _) (update_stats-Halts fuel k _)
          λ _ _. acknowledge-Halts start

  send_count-Halts : (n : ℕ) (buf : Bytes) → 0 < length buf → Halts fuel k 0 (send_count n buf)
  unfolding send_count
  send_count-Halts zero buf h = pure-Halts fuel k tt
  send_count-Halts (suc n) buf h =
      >>=-Halts fuel (HasSize (length buf)) k 0 _ _ (send_chunk-Keeps (n == 0) buf h)
        (chunk-Halts (n == 0)) λ buf' l. send_count-Halts n buf' (omega arith)
    where
      chunk-Owes :
          (s : Session) (x : Outcome Bytes × Session) → Chunked (length buf) s x → Owes 0 s x
      chunk-Owes s (ok b, t) c = (c.1, omega (arith, c.3))
      chunk-Owes s (err e, t) c = tt
      chunk-Owes s (panic, t) c = tt
      chunk-Owes s (stuck, t) c = c

      chunk-Halts : (terminal : Bool) → Halts fuel k 0 (send_chunk terminal buf)
      chunk-Halts terminal = record {
        run = λ s r l. chunk-Owes s _ (send_chunk-Chunked terminal buf s h r.range);
      }

  pub random_chunk-Halts : (random : ℕ → ℕ) (n : ℕ) → Halts fuel k 0 (random_chunk random n)
  unfolding random_chunk
  random_chunk-Halts random n = some_or_panic-Halts fuel k _

  pub getchunks_for-Halts :
      (random : ℕ → ℕ) (o : Option ℕ) → Halts fuel k 0 (getchunks_for random o)
  unfolding getchunks_for
  getchunks_for-Halts random none = err-Halts
  getchunks_for-Halts random (some count) =
      >>=-Halts fuel Any k 0 _ _ now-Keeps (now-Halts fuel k) λ start _.
        >>=-Halts fuel InRange k 0 _ _ chunk_size-Keeps (gets-Halts fuel k _) λ cs i.
          >>=-Halts fuel (HasSize cs) k 0 _ _ (random_chunk-Keeps random cs i)
            (random_chunk-Halts random cs)
            λ buf l.
              >>=-Halts fuel Any k 0 _ _ (send_count-Keeps count buf (omega (arith, i.0, l)))
                (send_count-Halts count buf (omega (arith, i.0, l))) λ _ _. account-Halts start _

  -- A handler behind the optional chunk size.
  pub argument-Halts :
      (arg : Bytes) (rest : Cmd (Unit {0}))
      → Halts fuel k 0 rest
      → Halts fuel k 0 (set_chunk_size arg >>= λ fine. if not fine then pure tt else rest)
  argument-Halts arg rest h =
      >>=-Halts fuel Any k 0 _ _ (set_chunk_size-Keeps arg) (set_chunk_size-Halts fuel k arg)
        λ fine _. if-Halts fuel k 0 (not fine) _ _ (pure-Halts fuel k tt) h

  report-Halts :
      (send_intermediate : Bool) (start total : ℕ) (last : Option ℕ)
      → Halts fuel k 0 (report send_intermediate start total last)
  unfolding report write_report
  report-Halts false start total last = pure-Halts fuel k last
  report-Halts true start total last =
      >>=-Halts fuel Any k 0 _ _ (elapsed-Keeps start) (elapsed-Halts fuel k start) λ ns _.
        if-Halts fuel k 0 (is_due last ns) _ _
          (>>=-Halts fuel Any k 0 _ _ (write_all-Keeps _) (write-Halts fuel k _)
            λ _ _. pure-Halts fuel k (some ns))
          (pure-Halts fuel k last)

  pub handle_ping-Halts : Halts fuel k 0 handle_ping
  unfolding handle_ping
  handle_ping-Halts = >>=-Halts fuel Any k 0 _ _ now-Keeps (now-Halts fuel k) λ start _.
      >>=-Halts fuel Any k 0 _ _ (write_all-Keeps _) (write-Halts fuel k _) λ _ _.
        >>=-Halts fuel Any k 0 _ _ read_line-Keeps (less-Halts fuel k 1 _ (line-Halts fuel k))
          λ ack _.
            if-Halts fuel k 0 (eq_bytes (trim ack) (codes "OK")) _ _
              (>>=-Halts fuel Any k 0 _ _ (elapsed-Keeps start) (elapsed-Halts fuel k start) λ ns _.
                >>=-Halts fuel Any k 0 _ _ (update_stats-Keeps _) (update_stats-Halts fuel k _)
                  λ _ _. write-Halts fuel k _)
              err-Halts

-- Each round of an upload takes a chunk.
pub receive-Halts :
    (fuel k : ℕ) (send_intermediate : Bool) (start total : ℕ) (last : Option ℕ)
    → Halts fuel k 0 (receive k send_intermediate start total last)
unfolding receive
receive-Halts fuel zero send_intermediate start total last = record {
  run = λ s r l. absurd (omega (arith, l));
}
receive-Halts fuel (suc k) send_intermediate start total last =
    >>=-Halts fuel InRange (suc k) 0 _ _ chunk_size-Keeps (gets-Halts fuel (suc k) _) λ cs i.
      less-Halts fuel (suc k) 1 _ (
        reads-Halts fuel (HasSize cs) k _ _ (read_exact-Keeps cs)
          (exact-Halts fuel (suc k) cs (omega (arith, i.0)))
          λ buf l.
            >>=-Halts fuel Any k 0 _ _ (get_elem?-Keeps buf (cs - 1) (omega (arith, i.0, l)))
              (some_or_panic-Halts fuel k _)
              λ last_byte _.
                >>=-Halts fuel Any k 0 _ _ (report-Keeps send_intermediate start _ last)
                  (report-Halts fuel k send_intermediate start _ last)
                  λ last' _.
                    if-Halts fuel k 0 (last_byte == 0xff) _ _ (pure-Halts fuel k _)
                      (receive-Halts fuel k send_intermediate start _ last'))
