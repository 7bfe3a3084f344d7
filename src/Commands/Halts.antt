-- ===== src/Commands/Halts.antt =====
-- The calls of a handler of src/protocol/commands.rs come to a result, and what they take from the
-- client: the loops on fuel end because of it.
use open_rmbt_server.Common.{
  ℕ, zero, suc, ◌+◌, ◌*◌, ◌≤◌, ◌<◌, ◌≡◌, refl, sym, ◌∙◌, subst, Bool, true, false, Option, none,
  some, arith, if◌then◌else◌, is_empty,
}
use open_rmbt_server.Text.{Bytes}
use open_rmbt_server.Io.{Outcome, ok, err, panic, stuck, Io, Wire}
use open_rmbt_server.Io
use open_rmbt_server.Io.Tame.{left, Tamed, Tame}
use open_rmbt_server.Config.Defs.{max_seconds, max_chunk_size}
use open_rmbt_server.Stats.{ConnStats}
use open_rmbt_server.Stream.Defs.{write_line, read_line, read_exact}
use open_rmbt_server.Stream.Tame.{
  Eats, write_all-Tame, read_line-Tame, read_line-Eats, read_exact-Reads,
}
use open_rmbt_server.Commands.Defs.{
  Session, Cmd, after, ◌>>=◌, pure, on, gets, update_stats, some_or_panic, elapsed,
  store_chunk_size, choose_chunk_size, parse_chunk_size, set_chunk_size,
}
use open_rmbt_server.Commands.Keeps.{Safe, InRange, Keeps, err-Keeps}

-- In `fuel` readings of the clock the longest test goes by.
abbrev pub Advances : ℕ → (ℕ → ℕ) → Type 0
Advances fuel ticks = (t : ℕ) → ticks t + max_seconds * 1000000000 ≤ ticks (t + fuel)

-- What the result owes: on success the clock is the same one, and `d` was taken.
abbrev pub Owes : {A : Type 0} → ℕ → Session → Outcome A × Session → Type 0
Owes d s (ok a, t) = (t.wire.ticks ≡ s.wire.ticks) × (left t.wire + d ≤ left s.wire)
Owes d s (err e, t) = Unit
Owes d s (panic, t) = Unit
Owes d s (stuck, t) = ⊥

module _ (fuel : ℕ) where
  pub record Ready (s : Session) : Type 0 where
    pub range : InRange s.chunk_size
    pub clock : Advances fuel s.wire.ticks
    pub enough : left s.wire < fuel

  -- With less than `k` to read, the command comes to a result.
  pub record Halts {A : Type 0} (k d : ℕ) (m : Cmd A) : Type 0 where
    pub run : (s : Session) → Ready s → left s.wire < k → Owes d s (m s)

  -- The state behind a call is ready too.
  Ready-after :
      (s t : Session) (d : ℕ)
      → Ready s
      → InRange t.chunk_size
      → t.wire.ticks ≡ s.wire.ticks
      → left t.wire + d ≤ left s.wire
      → Ready t
  Ready-after s t d h i c l = record {
    range = i;
    clock = subst (Advances fuel) (sym c) h.clock;
    enough = omega (arith, l, h.enough);
  }

  pub Owes_then :
      {A : Type 0} (s t : Session) (d e : ℕ) (x : Outcome A × Session)
      → t.wire.ticks ≡ s.wire.ticks
      → left t.wire + d ≤ left s.wire
      → Owes e t x
      → Owes (d + e) s x
  Owes_then s t d e (ok a, u) c l h = (h.0 ∙ c, omega (arith, l, h.1))
  Owes_then s t d e (err i, u) c l h = tt
  Owes_then s t d e (panic, u) c l h = tt
  Owes_then s t d e (stuck, u) c l h = h

  pub Owes_less :
      {A : Type 0} (s : Session) (d : ℕ) (x : Outcome A × Session) → Owes d s x → Owes 0 s x
  Owes_less s d (ok a, u) h = (h.0, omega (arith, h.1))
  Owes_less s d (err i, u) h = tt
  Owes_less s d (panic, u) h = tt
  Owes_less s d (stuck, u) h = h

  module _ {A B : Type 0} (P : A → Type 0) (k d e : ℕ) (f : A → Cmd B) where
    pub after-Owes :
        (s t : Session) (r : Outcome A)
        → Ready s
        → left s.wire < k + d
        → Safe P (r, t)
        → Owes d s (r, t)
        → ((a : A) → P a → Halts k e (f a))
        → Owes (d + e) s (after r t f)
    after-Owes s t (ok a) h l i o n =
        Owes_then s t d e _ o.0 o.1
          ((n a i.1).run t (Ready-after s t d h i.0 o.0 o.1) (omega (arith, l, o.1)))
    after-Owes s t (err j) h l i o n = tt
    after-Owes s t panic h l i o n = tt
    after-Owes s t stuck h l i o n = o

  module _ {A B : Type 0} (P : A → Type 0) (k : ℕ) where
    -- A call, and what follows it.
    pub >>=-Halts :
        (e : ℕ) (m : Cmd A) (f : A → Cmd B)
        → Keeps P m
        → Halts k 0 m
        → ((a : A) → P a → Halts k e (f a))
        → Halts k e (m >>= f)
    unfolding ◌>>=◌
    >>=-Halts e m f i h n = record {
      run = λ s r l.
          subst (λ d. Owes d s (after (m s).0 (m s).1 f)) (omega arith)
            (after-Owes P k 0 e f s (m s).1 (m s).0 r (omega (arith, l)) (i.run s r.range)
              (h.run s r l) n);
    }

    -- A call that takes something, and a loop behind it with one round less.
    pub reads-Halts :
        (m : Cmd A) (f : A → Cmd B)
        → Keeps P m
        → Halts (suc k) 1 m
        → ((a : A) → P a → Halts k 0 (f a))
        → Halts (suc k) 1 (m >>= f)
    unfolding ◌>>=◌
    reads-Halts m f i h n = record {
      run = λ s r l.
          after-Owes P k 1 0 f s (m s).1 (m s).0 r (omega (arith, l)) (i.run s r.range)
            (h.run s r l) n;
    }

  module _ (k : ℕ) where
    pub less-Halts : {A : Type 0} (d : ℕ) (m : Cmd A) → Halts k d m → Halts k 0 m
    less-Halts d m h = record { run = λ s r l. Owes_less s d (m s) (h.run s r l) }

    pub pure-Halts : {A : Type 0} (a : A) → Halts k 0 (pure a)
    unfolding pure
    pure-Halts a = record { run = λ s r l. (refl, omega arith) }

    pub if-Halts :
        {A : Type 0} (d : ℕ) (b : Bool) (m n : Cmd A)
        → Halts k d m
        → Halts k d n
        → Halts k d (if b then m else n)
    if-Halts d true m n h i = h
    if-Halts d false m n h i = i

    on-Owes :
        {A : Type 0} (s : Session) (r : Outcome A) (w : Wire)
        → Tamed s.wire (r, w)
        → Owes 0 s (r, record s { wire = w })
    on-Owes s (ok a) w h = (h.ticks, omega (arith, h.less))
    on-Owes s (err e) w h = tt
    on-Owes s panic w h = tt
    on-Owes s stuck w h = h.settled

    eats-Owes :
        {A : Type 0} (s : Session) (r : Outcome A) (w : Wire)
        → Tamed s.wire (r, w)
        → Eats s.wire (r, w)
        → Owes 1 s (r, record s { wire = w })
    eats-Owes s (ok a) w h e = (h.ticks, omega (arith, e))
    eats-Owes s (err e) w h i = tt
    eats-Owes s panic w h e = tt
    eats-Owes s stuck w h e = h.settled

    pub on-Halts : {A : Type 0} (m : Io A) → Tame m → Halts k 0 (on m)
    unfolding on
    on-Halts m h = record { run = λ s r l. on-Owes s (m s.wire).0 (m s.wire).1 (h.run s.wire) }

    pub write-Halts : (b : Bytes) → Halts k 0 (on (write_line b))
    write-Halts b = on-Halts _ (write_all-Tame b)

    pub line-Halts : Halts k 1 (on read_line)
    unfolding on
    line-Halts = record {
      run = λ s r l.
          eats-Owes s (read_line s.wire).0 (read_line s.wire).1 (read_line-Tame.run s.wire)
            (read_line-Eats s.wire);
    }

    pub exact-Halts : (n : ℕ) → 0 < n → Halts k 1 (on (read_exact n))
    unfolding on
    exact-Halts zero h = absurd (omega arith)
    exact-Halts (suc n) h = record {
      run = λ s r l.
          eats-Owes s (read_exact (suc n) s.wire).0 (read_exact (suc n) s.wire).1
            (read_exact-Reads n s.wire).0 (read_exact-Reads n s.wire).1;
    }

    pub gets-Halts : {A : Type 0} (f : Session → A) → Halts k 0 (gets f)
    unfolding gets
    gets-Halts f = record { run = λ s r l. (refl, omega arith) }

    pub update_stats-Halts : (f : ConnStats → ConnStats) → Halts k 0 (update_stats f)
    unfolding update_stats
    update_stats-Halts f = record { run = λ s r l. (refl, omega arith) }

    pub elapsed-Halts : (start : ℕ) → Halts k 0 (elapsed start)
    unfolding elapsed left
    elapsed-Halts start = record { run = λ s r l. (refl, omega arith) }

    pub now-Halts : Halts k 0 (on Io.now)
    unfolding on left
    now-Halts = record { run = λ s r l. (refl, omega arith) }

    pub some_or_panic-Halts : {A : Type 0} (o : Option A) → Halts k 0 (some_or_panic o)
    unfolding some_or_panic
    some_or_panic-Halts none = record { run = λ s r l. tt }
    some_or_panic-Halts (some a) = record { run = λ s r l. (refl, omega arith) }

    choose_chunk_size-Halts : (o : Option ℕ) → Halts k 0 (choose_chunk_size o)
    unfolding choose_chunk_size store_chunk_size
    choose_chunk_size-Halts (some cs) = record { run = λ s r l. (refl, omega arith) }
    choose_chunk_size-Halts none =
        >>=-Halts _ k 0 _ _ err-Keeps (write-Halts _) λ _ _. pure-Halts false

    pub set_chunk_size-Halts : (arg : Bytes) → Halts k 0 (set_chunk_size arg)
    unfolding set_chunk_size
    set_chunk_size-Halts arg =
        if-Halts 0 (is_empty arg) _ _ (pure-Halts true)
          (choose_chunk_size-Halts (parse_chunk_size arg max_chunk_size))
