-- ===== src/Commands/Download.antt =====
-- What GETCHUNKS of src/protocol/commands.rs sends and counts.
use open_rmbt_server.Common.{
  ℕ, zero, suc, ◌+◌, ◌-◌, ◌*◌, ◌%◌, ◌^◌, ◌<◌, ◌≡◌, refl, sym, ap, ◌∙◌, subst, Bool, true, false,
  leb, Option, none, some, List, [], ◌∷◌, ◌++◌, map, append-nil, append_assoc, arith, if◌then◌else◌,
}
use open_rmbt_server.Text.{Bytes, codes, eq_bytes, trim, show}
use open_rmbt_server.Io.{ErrorKind, StreamKind, raw, websocket, Message, Outcome, ok, Wire}
use open_rmbt_server.Stats.{add_download}
use open_rmbt_server.Stream.Defs.{
  write_line, line_of, cut_off, is_starved, read_until, read_line_raw, read_line_as, read_line,
}
use open_rmbt_server.Commands.Defs.{
  Session, ◌>>=◌, on, gets, update_stats, elapsed, slice, random_chunk, send_count, acknowledge,
  getchunks_for,
}
use open_rmbt_server.Config.Defs.{max_chunk_size}
use open_rmbt_server.Commands.Quiet.{>>=-ok}
use open_rmbt_server.Commands.Blocks.{some_or_panic-ok}
use open_rmbt_server.Commands.Chunks.{
  as_message, Wrote, Wrote-trans, write-Wrote, transfer, send_count-Wrote,
}

-- What a read leaves alone.
record OnlyRead (w v : Wire) : Type 0 where
  pub sent : v.sent ≡ w.sent
  pub kind : v.kind ≡ w.kind

line_of-OnlyRead : (buf : Bytes) (w v : Wire) → OnlyRead w v → OnlyRead w (line_of buf v).1
unfolding line_of
line_of-OnlyRead buf w v h = record { sent = ground arith; kind = ground arith }

read_line_raw-OnlyRead : (w : Wire) → OnlyRead w (read_line_raw w).1
unfolding read_line_raw
read_line_raw-OnlyRead w =
    let (buf, rest) = read_until 1025 w.input in
    cut (is_starved buf rest) w.ending _
      (line_of-OnlyRead buf w (record w { input = rest }) (record { sent = refl; kind = refl }))
  where
    cut :
        (b : Bool) (o : Option ErrorKind) (x : Outcome Bytes × Wire)
        → OnlyRead w x.1
        → OnlyRead w (if b then cut_off o x else x).1
    cut false o x h = h
    cut true none x h = h
    cut true (some e) x h = h

read_line_as-OnlyRead : (k : StreamKind) (w : Wire) → OnlyRead w (read_line_as k w).1
unfolding read_line_as
read_line_as-OnlyRead raw w = read_line_raw-OnlyRead w
read_line_as-OnlyRead websocket w = record { sent = refl; kind = refl }

read_line-Wrote : (s : Session) → Wrote s (on read_line s).1 []
unfolding on read_line
read_line-Wrote s =
    let h = read_line_as-OnlyRead s.wire.kind s.wire in
    record {
      sent = h.sent ∙ sym (append-nil s.wire.sent);
      kind = h.kind;
      chunk_size = refl;
      stats = refl;
    }

pub elapsed-Wrote : (start : ℕ) (s : Session) → Wrote s (elapsed start s).1 []
unfolding elapsed
elapsed-Wrote start s = record {
  sent = sym (append-nil s.wire.sent);
  kind = refl;
  chunk_size = refl;
  stats = refl;
}

-- One line is written.
abbrev Replied : Session → Session → Type 0
Replied s t = (line : Bytes) × Wrote s t (as_message s.wire.kind line ∷ [])

write-Replied :
    (line : Bytes) (s t : Session)
    → Wrote s t []
    → (on (write_line line) t).0 ≡ ok tt
    → Replied s (on (write_line line) t).1
write-Replied line s t h i = (
  line,
  Wrote-trans s t _ [] _ h (
      subst (λ k. Wrote t (on (write_line line) t).1 (as_message k line ∷ [])) h.kind
        (write-Wrote line t i)),
)

-- The reply to an acknowledgement that was read.
answer-Replied :
    (start : ℕ) (b : Bool) (s t : Session)
    → Wrote s t []
    → ((if b
          then (do ns ← elapsed start; on (write_line (codes "TIME " ++ (show ns ++ codes "\n"))))
          else on (write_line (codes "ERR\n")))
        t).0
      ≡ ok tt
    → Replied s
        ((if b
            then (do ns ← elapsed start; on (write_line (codes "TIME " ++ (show ns ++ codes "\n"))))
            else on (write_line (codes "ERR\n")))
          t).1
answer-Replied start true s t h i =
    let a = >>=-ok _ _ t tt i in
    subst (Replied s) (sym a.state)
      (write-Replied _ s _ (Wrote-trans s t _ [] [] h (elapsed-Wrote start t)) a.second)
answer-Replied start false s t h i = write-Replied _ s t h i

acknowledge-Replied :
    (start : ℕ) (s : Session) → (acknowledge start s).0 ≡ ok tt → Replied s (acknowledge start s).1
unfolding acknowledge
acknowledge-Replied start s h =
    let a = >>=-ok _ _ s tt h in
    subst (Replied s) (sym a.state)
      (answer-Replied start (eq_bytes (trim a.value) (codes "OK")) s _ (read_line-Wrote s) a.second)

pub slice-last :
    (random : ℕ → ℕ) (from n : ℕ)
    → slice random from (suc n) ≡ slice random from n ++ random (from + n) ∷ []
unfolding slice
slice-last random from zero = ap (λ i. random i ∷ []) (omega arith)
slice-last random from (suc n) =
    ap (◌∷◌ (random from))
      (slice-last random (from + 1) n ∙ ap (λ i. slice random (from + 1) n ++ random i ∷ []) next)
  where
    next : from + 1 + n ≡ from + suc n
    next = omega arith

-- What a download has done when it succeeds.
pub record Downloaded (random : ℕ → ℕ) (n : ℕ) (s t : Session) : Type 0 where
  pub reply : Bytes
  pub sent :
      t.wire.sent
      ≡ s.wire.sent
        ++ (map (as_message s.wire.kind) (transfer (slice random 0 (s.chunk_size - 1)) n)
            ++ as_message s.wire.kind reply ∷ [])
  pub ns : ℕ
  pub stats : t.stats ≡ add_download (suc n * s.chunk_size % 2 ^ 64) ns s.stats

-- The parts behind the time and the chunk size.
pub account_step :
    (bytes start : ℕ) (s : Session)
    → ((elapsed start >>= λ ns. update_stats (add_download bytes ns) >>= λ _. acknowledge start)
        s).0
      ≡ ok tt
    → (ns : ℕ) × (let t =
          ((elapsed start >>= λ ns. update_stats (add_download bytes ns) >>= λ _. acknowledge start)
            s).1 in
        (t.stats ≡ add_download bytes ns s.stats)
        × ((line : Bytes) × (t.wire.sent ≡ s.wire.sent ++ as_message s.wire.kind line ∷ [])))
unfolding elapsed update_stats ◌>>=◌
account_step bytes start s h =
    let ns = s.wire.ticks s.wire.tick - start in
    let u : Session = record s {
      wire = record (s.wire) { tick = s.wire.tick + 1 };
      stats = add_download bytes ns s.stats;
    } in
    let (line, w) = acknowledge-Replied start u h in (ns, (w.stats, (line, w.sent)))

pub sent_both :
    (k l : StreamKind) (before between after ms : List Message) (line : Bytes)
    → after ≡ between ++ as_message l line ∷ []
    → between ≡ before ++ ms
    → l ≡ k
    → after ≡ before ++ (ms ++ as_message k line ∷ [])
sent_both k l before between after ms line e f g =
    e
    ∙ ap (λ x. x ++ as_message l line ∷ []) f
    ∙ ap (λ j. (before ++ ms) ++ as_message j line ∷ []) g
    ∙ append_assoc before ms (as_message k line ∷ [])

-- A chunk that is there: the first bytes of RANDOM_CHUNK, and nothing else has changed.
pub random_chunk-ok :
    (random : ℕ → ℕ) (n : ℕ) (s : Session) (buf : Bytes)
    → (random_chunk random n s).0 ≡ ok buf
    → (buf ≡ slice random 0 n) × ((random_chunk random n s).1 ≡ s)
unfolding random_chunk
random_chunk-ok random n s buf h =
    let (e, same) = some_or_panic-ok _ s buf h in (there (leb n max_chunk_size) e, same)
  where
    there :
        (b : Bool)
        → (if b then some (slice random 0 n) else none) ≡ some buf
        → buf ≡ slice random 0 n
    there true e = cc e
    there false e = absurd (cc e)

-- The handler behind the time and the chunk size.
getchunks-rest :
    (random : ℕ → ℕ) (n : ℕ) (s : Session)
    → (getchunks_for random (some n) s) ≡ (
        let start = s.wire.ticks s.wire.tick in
        (random_chunk random s.chunk_size >>= λ buf. send_count n buf >>= λ _.
        elapsed start >>= λ ns.
        update_stats (add_download (n * s.chunk_size % 2 ^ 64) ns) >>= λ _. acknowledge start)
          (record s { wire = record (s.wire) { tick = s.wire.tick + 1 } }))
unfolding getchunks_for ◌>>=◌ on gets
getchunks-rest random n s = refl

-- GETCHUNKS for `n + 1` chunks, when it succeeds, has sent exactly `n + 1` chunks of the chunk size,
-- each the first bytes of RANDOM_CHUNK but for its last byte, which is 0xFF in the last chunk and
-- 0x00 in the others, then one line, and nothing else; and it has added the number of those bytes
-- (modulo 2^64) and a time to the download statistics, and nothing else to the statistics.
pub getchunks_for_sends :
    (random : ℕ → ℕ) (n : ℕ) (s : Session)
    → 0 < s.chunk_size
    → (getchunks_for random (some (suc n)) s).0 ≡ ok tt
    → Downloaded random n s (getchunks_for random (some (suc n)) s).1
getchunks_for_sends random n s p h =
    let u : Session = record s { wire = record (s.wire) { tick = s.wire.tick + 1 } } in
    let body = slice random 0 (s.chunk_size - 1) in
    let split : slice random 0 s.chunk_size ≡ body ++ random (0 + (s.chunk_size - 1)) ∷ [] =
      ap (slice random 0) whole ∙ slice-last random 0 (s.chunk_size - 1) in
    let rest = getchunks-rest random (suc n) s in
    let d = >>=-ok _ _ u tt (subst (λ x. x.0 ≡ ok tt) rest h) in
    let (chunk, same) = random_chunk-ok random s.chunk_size u d.value d.first in
    let a = >>=-ok _ _ _ tt d.second in
    let w =
      subst
        (λ (x : Bytes × Session).
          (send_count (suc n) x.0 x.1).0 ≡ ok tt
          → Wrote u (send_count (suc n) x.0 x.1).1 (map (as_message s.wire.kind) (transfer body n)))
        (sym (ap (λ b. (b, u)) (chunk ∙ split)) ∙ ap (λ t. (d.value, t)) (sym same))
        (send_count-Wrote n body _ u) a.first in
    let (ns, (stats, (line, sent))) =
      account_step (suc n * s.chunk_size % 2 ^ 64) (s.wire.ticks s.wire.tick) _ a.second in
    subst (λ x. Downloaded random n s x.1) (sym rest)
      (subst (Downloaded random n s) (sym (d.state ∙ a.state)) (record {
        reply = line;
        sent = sent_both _ _ s.wire.sent _ _ _ line sent w.sent w.kind;
        ns = ns;
        stats = stats ∙ ap (add_download (suc n * s.chunk_size % 2 ^ 64) ns) w.stats;
      }))
  where
    whole : s.chunk_size ≡ suc (s.chunk_size - 1)
    whole = omega (arith, p)
