-- ===== src/Commands/Timed.antt =====
-- The loop of GETTIME in src/protocol/commands.rs ends with the clock.
use open_rmbt_server.Common.{
  ℕ, zero, suc, ◌+◌, ◌-◌, ◌%◌, ◌^◌, ◌≤◌, ◌<◌, ◌≡◌, refl, subst, Bool, true, false, Option, none,
  some, arith, leb, if◌then◌else◌, length,
}
use open_rmbt_server.Text.{Bytes}
use open_rmbt_server.Io.{Outcome, ok, err, panic, stuck, Wire}
use open_rmbt_server.Io
use open_rmbt_server.Io.Tame.{left}
use open_rmbt_server.Stream.Defs.{write_all}
use open_rmbt_server.Stream.Tame.{write_all-Tame}
use open_rmbt_server.Commands.Defs.{
  Session, after, ◌>>=◌, pure, on, gets, some_or_panic, elapsed, set_last, mark, send_chunk,
  send_until,
}
use open_rmbt_server.Commands.Keeps.{set_last-Keeps, Post, InRange, HasSize, send_chunk-Keeps}
use open_rmbt_server.Commands.Halts.{Owes, Owes_then}

-- A chunk that was sent has read neither the stream nor the clock.
abbrev pub Chunked : ℕ → Session → Outcome Bytes × Session → Type 0
Chunked n s (ok buf, t) =
    (length buf ≡ n)
    × (t.wire.ticks ≡ s.wire.ticks)
    × (t.wire.tick ≡ s.wire.tick)
    × (left t.wire ≤ left s.wire)
Chunked n s (err e, t) = Unit
Chunked n s (panic, t) = ⊥
Chunked n s (stuck, t) = ⊥

sent-Chunked :
    (buf : Bytes) (s : Session) → Chunked (length buf) s ((on (write_all buf) >>= λ _. pure buf) s)
unfolding ◌>>=◌ on pure
sent-Chunked buf s =
    wrote (write_all buf s.wire).0 (write_all buf s.wire).1 ((write_all-Tame buf).run s.wire)
  where
    wrote :
        (r : Outcome (Unit {0})) (w : Wire)
        → open_rmbt_server.Io.Tame.Tamed s.wire (r, w)
        → Chunked (length buf) s (after r (record s { wire = w }) λ _. pure buf)
    wrote (ok a) w h = (refl, h.ticks, h.tick, h.less)
    wrote (err e) w h = tt
    wrote panic w h = h.settled
    wrote stuck w h = h.settled

last-Chunked :
    (n : ℕ) (o : Option Bytes) (s : Session)
    → Post (HasSize n) (some_or_panic o s).0
    → Chunked n s ((some_or_panic o >>= λ buf'. on (write_all buf') >>= λ _. pure buf') s)
unfolding some_or_panic ◌>>=◌
last-Chunked n none s h = h
last-Chunked n (some buf) s h =
    subst (λ m. Chunked m s ((on (write_all buf) >>= λ _. pure buf) s)) h (sent-Chunked buf s)

pub send_chunk-Chunked :
    (terminal : Bool) (buf : Bytes) (s : Session)
    → 0 < length buf
    → InRange s.chunk_size
    → Chunked (length buf) s (send_chunk terminal buf s)
unfolding send_chunk
send_chunk-Chunked terminal buf s h i =
    last-Chunked (length buf) (set_last (mark terminal) buf) s
      ((set_last-Keeps (mark terminal) buf h).run s i).1

module _ (fuel start max_ns : ℕ) where
  -- What the loop of GETTIME does next, from any state with the clock of `s`.
  abbrev GoesOn : ℕ → Session → Type 0
  GoesOn n s =
      (buf : Bytes) (sent : ℕ) (t : Session)
      → 0 < length buf
      → InRange t.chunk_size
      → t.wire.ticks ≡ s.wire.ticks
      → t.wire.tick ≡ s.wire.tick
      → Owes 0 t (send_until n start max_ns buf sent t)

  round-Owes :
      (n size sent : ℕ) (terminal : Bool) (s t : Session) (r : Outcome Bytes)
      → 0 < size
      → InRange t.chunk_size
      → Chunked size s (r, t)
      → (terminal ≡ false → GoesOn n s)
      → Owes 0 s (
          after r t λ buf. gets (λ s. s.chunk_size) >>= λ cs.
          let sent' = (sent + cs) % 2 ^ 64 in
          if terminal then pure sent' else send_until n start max_ns buf sent')
  unfolding ◌>>=◌ gets pure
  round-Owes n size sent true s t (ok buf) p i h g = (h.1, omega (arith, h.3))
  round-Owes n size sent false s t (ok buf) p i h g =
      Owes_then fuel s t 0 0 _ h.1 (omega (arith, h.3))
        (g refl buf _ t (omega (arith, p, h.0)) i h.1 h.2)
  round-Owes n size sent terminal s t (err e) p i h g = tt
  round-Owes n size sent terminal s t panic p i h g = tt
  round-Owes n size sent terminal s t stuck p i h g = h

  send_until_step :
      (n sent : ℕ) (buf : Bytes) (s : Session)
      → 0 < length buf
      → InRange s.chunk_size
      → (leb max_ns (s.wire.ticks s.wire.tick - start) ≡ false
          → GoesOn n (record s { wire = record (s.wire) { tick = s.wire.tick + 1 } }))
      → Owes 0 s (send_until (suc n) start max_ns buf sent s)
  unfolding send_until ◌>>=◌ elapsed left
  send_until_step n sent buf s p i g =
      let s1 = record s { wire = record (s.wire) { tick = s.wire.tick + 1 } } in
      let terminal = leb max_ns (s.wire.ticks s.wire.tick - start) in
      let x = send_chunk terminal buf s1 in
      Owes_then fuel s s1 0 0 _ refl (omega arith) (
        round-Owes n (length buf) sent terminal s1 x.1 x.0 p
          ((send_chunk-Keeps terminal buf p).run s1 i).0 (send_chunk-Chunked terminal buf s1 p i) g)

  -- The loop ends within the readings that the clock needs.
  pub send_until-Ends :
      (n sent : ℕ) (buf : Bytes) (s : Session)
      → 0 < length buf
      → InRange s.chunk_size
      → start + max_ns ≤ s.wire.ticks (s.wire.tick + n)
      → Owes 0 s (send_until (suc n) start max_ns buf sent s)
  send_until-Ends zero sent buf s p i h =
      send_until_step zero sent buf s p i λ b. absurd (ground arith)
  send_until-Ends (suc n) sent buf s p i h =
      send_until_step (suc n) sent buf s p i
        λ b buf' sent' t p' i' c k. send_until-Ends n sent' buf' t p' i' (goes_on t c k)
    where
      goes_on :
          (t : Session)
          → t.wire.ticks ≡ s.wire.ticks
          → t.wire.tick ≡ s.wire.tick + 1
          → start + max_ns ≤ t.wire.ticks (t.wire.tick + n)
      goes_on t c k = rw (c, k) (subst (λ j. start + max_ns ≤ s.wire.ticks j) (omega arith) h)
