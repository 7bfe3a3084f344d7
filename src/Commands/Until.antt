-- ===== src/Commands/Until.antt =====
-- The loop of GETTIME in src/protocol/commands.rs: what it sends, and until when.
use open_rmbt_server.Common.{
  ℕ, zero, suc, ◌+◌, ◌-◌, ◌*◌, ◌%◌, ◌^◌, ◌≤◌, ◌<◌, ◌≡◌, refl, sym, ap, ◌∙◌, subst, Bool, true,
  false, [], ◌∷◌, ◌++◌, map, arith, leb, leb→le, if◌then◌else◌, length-append, append_assoc,
}
use open_rmbt_server.Text.{Bytes}
use open_rmbt_server.Io.{Outcome, ok, err, panic, stuck}
use open_rmbt_server.Commands.Defs.{
  Session, Cmd, ◌>>=◌, pure, gets, elapsed, send_chunk, send_until, slice, on, update_stats,
  acknowledge, gettime_for,
}
use open_rmbt_server.Commands.Keeps.{InRange}
use open_rmbt_server.Commands.Quiet.{>>=-ok}
use open_rmbt_server.Commands.Timed.{Chunked, send_chunk-Chunked}
use open_rmbt_server.Commands.Chunks.{as_message, Wrote, chunk_of, transfer, send_chunk-ok}

-- What the loop has done when it returns `result`: it has sent `n + 1` chunks, and the reading of
-- the clock before the last one is the first at which the time was over.
pub record Sends (start max_ns sent : ℕ) (body : Bytes) (s t : Session) (result : ℕ) : Type 0 where
  pub n : ℕ
  pub wrote : Wrote s t (map (as_message s.wire.kind) (transfer body n))
  pub early : (i : ℕ) → i < n → s.wire.ticks (s.wire.tick + i) - start < max_ns
  pub over : max_ns ≤ s.wire.ticks (s.wire.tick + n) - start
  pub counted : result ≡ (sent + suc n * s.chunk_size) % 2 ^ 64

record Clocked (s t : Session) : Type 0 where
  pub ticks : t.wire.ticks ≡ s.wire.ticks
  pub tick : t.wire.tick ≡ s.wire.tick

Chunked-Clocked :
    (n : ℕ) (s : Session) (x : Outcome Bytes × Session) (buf : Bytes)
    → Chunked n s x
    → x.0 ≡ ok buf
    → Clocked s x.1
Chunked-Clocked n s (ok b, t) buf h e = record { ticks = h.1; tick = h.2 }
Chunked-Clocked n s (err e, t) buf h i = absurd (cc i)
Chunked-Clocked n s (panic, t) buf h i = absurd h
Chunked-Clocked n s (stuck, t) buf h i = absurd h

-- The state behind a reading of the clock.
abbrev pub ticked : Session → Session
ticked s = record s { wire = record (s.wire) { tick = s.wire.tick + 1 } }

-- One round behind the reading.
abbrev until_round : ℕ → ℕ → ℕ → Bytes → ℕ → Bool → Cmd ℕ
until_round fuel start max_ns buf sent terminal = do
  buf' ← send_chunk terminal buf
  cs ← gets (λ s. s.chunk_size)
  let sent' = (sent + cs) % 2 ^ 64
  if terminal then pure sent' else send_until fuel start max_ns buf' sent'

send_until_lem :
    (fuel start max_ns sent : ℕ) (buf : Bytes) (s : Session)
    → send_until (suc fuel) start max_ns buf sent s
      ≡ until_round fuel start max_ns buf sent
          (leb max_ns (s.wire.ticks s.wire.tick - start))
          (ticked s)
unfolding send_until ◌>>=◌ elapsed
send_until_lem fuel start max_ns sent buf s = refl

gets_then :
    {B : Type 0} (f : ℕ → Cmd B) (t : Session)
    → (gets (λ s. s.chunk_size) >>= f) t ≡ f t.chunk_size t
unfolding gets ◌>>=◌
gets_then f t = refl

no_fuel :
    (start max_ns sent : ℕ) (buf : Bytes) (s : Session) (result : ℕ)
    → (send_until zero start max_ns buf sent s).0 ≡ ok result
    → ⊥
unfolding send_until open_rmbt_server.Commands.Defs.out_of_fuel
no_fuel start max_ns sent buf s result h = cc h

module _ (start max_ns : ℕ) (body : Bytes) (result : ℕ) where
  -- The last chunk was sent.
  stops-Sends :
      (sent : ℕ) (s t : Session)
      → max_ns ≤ s.wire.ticks s.wire.tick - start
      → Wrote (ticked s) t (as_message s.wire.kind (chunk_of body true) ∷ [])
      → result ≡ (sent + t.chunk_size) % 2 ^ 64
      → Sends start max_ns sent body s t result
  stops-Sends sent s t h w e = record {
    n = 0;
    wrote = record { sent = w.sent; kind = w.kind; chunk_size = w.chunk_size; stats = w.stats };
    early = λ i j. absurd (omega (arith, j));
    over = subst (λ i. max_ns ≤ s.wire.ticks i - start) (omega arith) h;
    counted = e ∙ ap (λ c. (sent + c) % 2 ^ 64) (w.chunk_size ∙ one);
  }
    where
      one : s.chunk_size ≡ 1 * s.chunk_size
      one = omega arith

  -- A chunk, and the rest of the loop.
  goes_on-Sends :
      (sent : ℕ) (s t u : Session)
      → s.wire.ticks s.wire.tick - start < max_ns
      → Wrote (ticked s) t (as_message s.wire.kind (chunk_of body false) ∷ [])
      → Clocked (ticked s) t
      → Sends start max_ns ((sent + t.chunk_size) % 2 ^ 64) body t u result
      → Sends start max_ns sent body s u result
  goes_on-Sends sent s t u h w c r = record {
    n = suc r.n;
    wrote = record {
      sent =
          r.wrote.sent
          ∙ ap (λ k. t.wire.sent ++ map (as_message k) (transfer body r.n)) w.kind
          ∙ ap (λ l. l ++ map (as_message s.wire.kind) (transfer body r.n)) w.sent
          ∙ append_assoc s.wire.sent _ _;
      kind = r.wrote.kind ∙ w.kind;
      chunk_size = r.wrote.chunk_size ∙ w.chunk_size;
      stats = r.wrote.stats ∙ w.stats;
    };
    early = early;
    over = subst (λ i. max_ns ≤ i - start) (reading r.n) r.over;
    counted =
        r.counted
        ∙ ap (λ c. ((sent + c) % 2 ^ 64 + suc r.n * c) % 2 ^ 64) w.chunk_size
        ∙ sum r.n s.chunk_size;
  }
    where
      reading : (i : ℕ) → t.wire.ticks (t.wire.tick + i) ≡ s.wire.ticks (s.wire.tick + suc i)
      reading i = ap (λ f. f (t.wire.tick + i)) c.ticks ∙ ap s.wire.ticks (omega (arith, c.tick))

      early : (i : ℕ) → i < suc r.n → s.wire.ticks (s.wire.tick + i) - start < max_ns
      early zero j = subst (λ i. s.wire.ticks i - start < max_ns) (omega arith) h
      early (suc i) j = subst (λ x. x - start < max_ns) (reading i) (r.early i (omega (arith, j)))

      sum :
          (n cs : ℕ)
          → ((sent + cs) % 2 ^ 64 + suc n * cs) % 2 ^ 64 ≡ (sent + suc (suc n) * cs) % 2 ^ 64
      sum n cs = grind arith

  -- What a round does behind its chunk.
  abbrev next : ℕ → ℕ → Bool → Bytes → ℕ → Cmd ℕ
  next fuel sent b buf cs =
      if b
      then pure ((sent + cs) % 2 ^ 64)
      else send_until fuel start max_ns buf ((sent + cs) % 2 ^ 64)

  -- What the rest of the loop owes.
  abbrev Rest : ℕ → Type 0
  Rest fuel =
      (sent x : ℕ) (s : Session)
      → InRange s.chunk_size
      → (send_until fuel start max_ns (body ++ x ∷ []) sent s).0 ≡ ok result
      → Sends start max_ns sent body s (send_until fuel start max_ns (body ++ x ∷ []) sent s).1
          result

  next-Sends :
      (fuel sent : ℕ) (s t : Session) (b : Bool)
      → leb max_ns (s.wire.ticks s.wire.tick - start) ≡ b
      → InRange t.chunk_size
      → Rest fuel
      → Wrote (ticked s) t (as_message s.wire.kind (chunk_of body b) ∷ [])
      → Clocked (ticked s) t
      → (next fuel sent b (chunk_of body b) t.chunk_size t).0 ≡ ok result
      → Sends start max_ns sent body s (next fuel sent b (chunk_of body b) t.chunk_size t).1 result
  unfolding pure
  next-Sends fuel sent s t true e i rest w c k =
      stops-Sends sent s t (leb→le max_ns _ e) w (injective k)
    where
      injective :
          ok ((sent + t.chunk_size) % 2 ^ 64) ≡ ok result → result ≡ (sent + t.chunk_size) % 2 ^ 64
      injective j = cc j
  next-Sends fuel sent s t false e i rest w c k =
      goes_on-Sends sent s t _ (ground arith) w c (rest _ 0x00 t i k)

  round-Sends :
      (fuel sent x : ℕ) (s : Session) (terminal : Bool)
      → leb max_ns (s.wire.ticks s.wire.tick - start) ≡ terminal
      → InRange s.chunk_size
      → Rest fuel
      → (until_round fuel start max_ns (body ++ x ∷ []) sent terminal (ticked s)).0 ≡ ok result
      → Sends start max_ns sent body s
          (until_round fuel start max_ns (body ++ x ∷ []) sent terminal (ticked s)).1
          result
  round-Sends fuel sent x s terminal e i rest h =
      let a =
        >>=-ok (send_chunk terminal (body ++ x ∷ []))
          (λ buf. gets (λ s. s.chunk_size) >>= λ cs. next fuel sent terminal buf cs) (ticked s)
          result h in
      let (same, w) = send_chunk-ok terminal body x (ticked s) a.value a.first in
      let t = (send_chunk terminal (body ++ x ∷ []) (ticked s)).1 in
      let c =
        Chunked-Clocked _ (ticked s) _ a.value
          (send_chunk-Chunked terminal (body ++ x ∷ []) (ticked s)
            (omega (arith, length-append body (x ∷ []))) i)
          a.first in
      let rest_of =
        gets_then (λ cs. next fuel sent terminal a.value cs) t
        ∙ ap (λ b. next fuel sent terminal b t.chunk_size t) same in
      subst (λ u. Sends start max_ns sent body s u result) (sym (a.state ∙ ap (λ v. v.1) rest_of))
        (next-Sends fuel sent s t terminal e (rw w.chunk_size i) rest w c
          (subst (λ v. v.0 ≡ ok result) rest_of a.second))

  -- The loop of GETTIME, when it returns: it has sent chunks that are alike but for the last byte,
  -- 0xFF in the last one and 0x00 in the others; the reading of the clock before the last chunk is
  -- the first one at which the time was over; and the result is the number of the bytes sent,
  -- modulo 2^64, when added to what it started from.
  pub send_until-Sends : (fuel : ℕ) → Rest fuel
  send_until-Sends zero sent x s i h = absurd (no_fuel start max_ns sent _ s result h)
  send_until-Sends (suc fuel) sent x s i h =
      subst (λ v. Sends start max_ns sent body s v.1 result)
        (sym (send_until_lem fuel start max_ns sent _ s))
        (round-Sends fuel sent x s _ refl i (send_until-Sends fuel)
          (subst (λ v. v.0 ≡ ok result) (send_until_lem fuel start max_ns sent _ s) h))
