-- ===== src/Commands/Progress.antt =====
-- PUT and PUTNORESULT of src/protocol/commands.rs: the whole of what they write.
use open_rmbt_server.Common.{
  ℕ, ◌+◌, ◌-◌, ◌*◌, ◌%◌, ◌^◌, ◌<◌, ◌≡◌, refl, sym, ap, ◌∙◌, subst, Bool, true, false, none, List,
  [], ◌∷◌, ◌++◌, append-nil, append_assoc, arith,
}
use open_rmbt_server.Text.{Bytes, codes}
use open_rmbt_server.Io.{StreamKind, raw, websocket, Message, ok, Wire}
use open_rmbt_server.Io
use open_rmbt_server.Stats.{add_upload}
use open_rmbt_server.Commands.Defs.{Session, ◌>>=◌, on, update_stats, elapsed, put_all}
use open_rmbt_server.Commands.Quiet.{>>=-ok}
use open_rmbt_server.Commands.Blocks.{ok-injective}
use open_rmbt_server.Commands.Upload.{settle_upload}
use open_rmbt_server.Commands.Chunks.{as_message, Wrote, Wrote-trans, write-Wrote}
use open_rmbt_server.Commands.Rounds.{Shows, Rounds, receive-Rounds}
use open_rmbt_server.Commands.Told.{readings, Passed, write-Passed}
use open_rmbt_server.Commands.Reports.{Reporting, report_messages, time_line}

-- What the clock shows since the start of an upload, which is its first reading, at each later one.
abbrev pub clock_of : Session → ℕ → ℕ
clock_of s j = s.wire.ticks (s.wire.tick + 1 + j) - s.wire.ticks s.wire.tick

-- The total time is read once more, behind the readings of the `n` chunks.
abbrev pub total_ns : Bool → Session → ℕ → ℕ
total_ns send_intermediate s n = clock_of s (readings send_intermediate n)

-- What PUT has written and counted when it succeeds.
pub record Reported (send_intermediate : Bool) (s t : Session) : Type 0 where
  pub n : ℕ
  pub lines : List (ℕ × ℕ)
  pub chunks : 0 < n
  pub reports : Reporting send_intermediate (clock_of s) s.chunk_size none 0 n lines
  pub sent :
      t.wire.sent
      ≡ s.wire.sent
        ++ (as_message s.wire.kind (codes "OK\n")
            ∷ (report_messages s.wire.kind lines
                ++ as_message s.wire.kind (time_line (total_ns send_intermediate s n)) ∷ []))
  pub stats :
      t.stats ≡ add_upload ((n * s.chunk_size) % 2 ^ 64) (total_ns send_intermediate s n) s.stats

now-Wrote : (s : Session) → Wrote s (on Io.now s).1 []
unfolding on
now-Wrote s = record {
  sent = sym (append-nil s.wire.sent);
  kind = refl;
  chunk_size = refl;
  stats = refl;
}

no_readings : (si : Bool) → 0 ≡ readings si 0
no_readings true = refl
no_readings false = refl

now-start :
    (si : Bool) (s v : Session) (start : ℕ)
    → Passed 0 s v
    → (on Io.now v).0 ≡ ok start
    → Shows (clock_of s) start (readings si 0) (on Io.now v).1
unfolding on
now-start si s v start p h =
    subst (λ i. Shows (clock_of s) start i (on Io.now v).1) (no_readings si)
      (record { at = λ k. shows k })
  where
    started : start ≡ s.wire.ticks s.wire.tick
    started =
        sym (ok-injective h)
        ∙ ap (λ f. f v.wire.tick) p.ticks
        ∙ ap s.wire.ticks (omega (arith, p.tick))

    shows : (k : ℕ) → v.wire.ticks (v.wire.tick + 1 + k) - start ≡ clock_of s (0 + k)
    shows k =
        ap (λ n. v.wire.ticks (v.wire.tick + 1 + k) - n) started
        ∙ ap (λ f. f (v.wire.tick + 1 + k) - s.wire.ticks s.wire.tick) p.ticks
        ∙ ap (λ n. s.wire.ticks n - s.wire.ticks s.wire.tick) (omega (arith, p.tick))

-- The statistics and the last line.
record Settled (ns : ℕ) (s t : Session) (total_bytes : ℕ) : Type 0 where
  pub sent : t.wire.sent ≡ s.wire.sent ++ as_message s.wire.kind (time_line ns) ∷ []
  pub stats : t.stats ≡ add_upload total_bytes ns s.stats

settle_upload-Settled :
    (clock : ℕ → ℕ) (i start total_bytes : ℕ) (s : Session)
    → Shows clock start i s
    → (settle_upload start total_bytes s).0 ≡ ok tt
    → Settled (clock i) s (settle_upload start total_bytes s).1 total_bytes
unfolding ◌>>=◌ elapsed update_stats
settle_upload-Settled clock i start total_bytes s z h =
    let ns = s.wire.ticks s.wire.tick - start in
    let w =
      write-Wrote (time_line ns)
        (record s {
          wire = record (s.wire) { tick = s.wire.tick + 1 };
          stats = add_upload total_bytes ns s.stats;
        })
        h in
    subst (λ n. Settled n s (settle_upload start total_bytes s).1 total_bytes) shown
      (record { sent = w.sent; stats = w.stats })
  where
    shown : s.wire.ticks s.wire.tick - start ≡ clock i
    shown = ap (λ n. s.wire.ticks n - start) (omega arith) ∙ z.at 0 ∙ ap clock (omega arith)

no_bytes : (cs : ℕ) → 0 ≡ (0 * cs) % 2 ^ 64
no_bytes cs = omega arith

-- One more message behind what was sent.
behind_sent :
    (k k' : StreamKind) (line : Bytes) (l m x y : List Message)
    → y ≡ x ++ as_message k' line ∷ []
    → x ≡ l ++ m
    → k' ≡ k
    → y ≡ l ++ (m ++ as_message k line ∷ [])
behind_sent k k' line l m x y e f g =
    e
    ∙ ap (λ i. x ++ as_message i line ∷ []) g
    ∙ ap (λ z. z ++ as_message k line ∷ []) f
    ∙ append_assoc l m (as_message k line ∷ [])

-- The last line behind what was written before.
Settled-Reported :
    (si : Bool) (start total : ℕ) (s v x t : Session)
    → Wrote s v (as_message s.wire.kind (codes "OK\n") ∷ [])
    → (r : Rounds si (clock_of s) start s.chunk_size none 0 v x total)
    → Settled (total_ns si s r.n) x t total
    → Reported si s t
Settled-Reported si start total s v x t begun r settled =
    let ns = total_ns si s r.n in
    let reported = subst (λ k. Wrote v x (report_messages k r.lines)) begun.kind r.wrote in
    let all = Wrote-trans s v x _ (report_messages s.wire.kind r.lines) begun reported in
    record {
      n = r.n;
      lines = r.lines;
      chunks = r.more;
      reports = r.reports;
      sent =
          behind_sent s.wire.kind x.wire.kind (time_line ns) s.wire.sent _ x.wire.sent t.wire.sent
            settled.sent all.sent all.kind;
      stats =
          settled.stats
          ∙ ap (λ b. add_upload b ns x.stats) r.counted
          ∙ ap (add_upload ((r.n * s.chunk_size) % 2 ^ 64) ns) all.stats;
    }

-- PUT and PUTNORESULT, when they succeed on a stream of either kind, have written "OK", then the
-- reports, then one line with the total time, and nothing else. PUTNORESULT reports nothing. PUT
-- reports behind the first chunk, and behind a later one if and only if the reading of the
-- clock behind that chunk, the one with its number after the start, shows at least 1 ms more than
-- the last report did; a report tells that time and the bytes of the chunks
-- received so far, modulo 2^64. The upload statistics grow by the bytes of all the chunks, modulo
-- 2^64, and by the time in the last line, which is that of the clock's next reading.
pub put_all_reports :
    (fuel : ℕ) (send_intermediate : Bool) (s : Session)
    → (put_all fuel send_intermediate s).0 ≡ ok tt
    → Reported send_intermediate s (put_all fuel send_intermediate s).1
unfolding put_all
put_all_reports fuel si s h =
    let a = >>=-ok _ _ s tt h in
    let b = >>=-ok _ _ _ tt a.second in
    let c = >>=-ok _ _ _ tt b.second in
    let begun = Wrote-trans s _ _ _ [] (write-Wrote (codes "OK\n") s a.first) (now-Wrote _) in
    let z = now-start si s _ b.value (write-Passed (codes "OK\n") s) b.first in
    let r =
      receive-Rounds fuel si (clock_of s) b.value c.value s.chunk_size 0 0 none _ begun.chunk_size
        (no_bytes s.chunk_size) z c.first in
    let settled =
      settle_upload-Settled (clock_of s) (readings si r.n) b.value c.value _ r.shown c.second in
    subst (Reported si s) (sym (a.state ∙ b.state ∙ c.state))
      (Settled-Reported si b.value c.value s _ _ _ begun r settled)
