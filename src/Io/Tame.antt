-- ===== src/Io/Tame.antt =====
-- Calls that leave the peer and the clock of a connection alone, take nothing back of what they
-- read, and come to a result.
use open_rmbt_server.Common.{
  ℕ, ◌+◌, ◌≤◌, ◌≡◌, refl, ◌∙◌, Bool, true, false, Option, none, some, List, [], ◌∷◌, arith,
  if◌then◌else◌, length,
}
use open_rmbt_server.Text.{Bytes}
use open_rmbt_server.Io.{
  ErrorKind, Message, Outcome, ok, err, panic, stuck, Io, Wire, after, ◌>>=◌, pure, fail, put_with,
  put,
}

-- What is still to be read.
unfoldable pub left : Wire → ℕ
left w = length w.input + length w.frames

abbrev pub IsSettled : {A : Type 0} → Outcome A → Type 0
IsSettled (ok a) = Unit
IsSettled (err e) = Unit
IsSettled panic = ⊥
IsSettled stuck = ⊥

pub record Tamed {A : Type 0} (w : Wire) (x : Outcome A × Wire) : Type 0 where
  pub peer : x.1.peer ≡ w.peer
  pub ticks : x.1.ticks ≡ w.ticks
  pub tick : x.1.tick ≡ w.tick
  pub less : left x.1 ≤ left w
  pub settled : IsSettled x.0

pub record Tame {A : Type 0} (m : Io A) : Type 0 where
  pub run : (w : Wire) → Tamed w (m w)

-- A result that comes without reading.
pub same_Tamed :
    {A : Type 0} (w v : Wire) (r : Outcome A)
    → v.peer ≡ w.peer
    → v.ticks ≡ w.ticks
    → v.tick ≡ w.tick
    → v.input ≡ w.input
    → v.frames ≡ w.frames
    → IsSettled r
    → Tamed w (r, v)
unfolding left
same_Tamed w v r p t k i f s = record {
  peer = p;
  ticks = t;
  tick = k;
  less = rw (i, f) (omega arith);
  settled = s;
}

-- A result that comes of reading bytes.
pub read_Tamed :
    {A : Type 0} (w : Wire) (rest : Bytes) (r : Outcome A)
    → length rest ≤ length w.input
    → IsSettled r
    → Tamed w (r, record w { input = rest })
unfolding left
read_Tamed w rest r h s = record {
  peer = refl;
  ticks = refl;
  tick = refl;
  less = omega arith;
  settled = s;
}

module _ {A : Type 0} where
  pub pure-Tame : (a : A) → Tame (pure a)
  pure-Tame a = record { run = λ w. same_Tamed w w (ok a) refl refl refl refl refl tt }

  pub fail-Tame : (e : ErrorKind) → Tame {A = A} (fail e)
  fail-Tame e = record { run = λ w. same_Tamed w w (err e) refl refl refl refl refl tt }

  pub if-Tame : (b : Bool) (m k : Io A) → Tame m → Tame k → Tame (if b then m else k)
  if-Tame true m k h i = h
  if-Tame false m k h i = i

-- One call behind another, and an error that is passed on.
pub then_Tamed :
    {A B : Type 0} (w v : Wire) (r : Outcome A) (x : Outcome B × Wire)
    → Tamed w (r, v)
    → Tamed v x
    → Tamed w x
then_Tamed w v r x h t = record {
  peer = t.peer ∙ h.peer;
  ticks = t.ticks ∙ h.ticks;
  tick = t.tick ∙ h.tick;
  less = omega (arith, t.less, h.less);
  settled = t.settled;
}

pub err_Tamed :
    {A B : Type 0} (w v : Wire) (r : Outcome A) (e : ErrorKind)
    → Tamed w (r, v)
    → Tamed {A = B} w (err e, v)
err_Tamed w v r e h = record {
  peer = h.peer;
  ticks = h.ticks;
  tick = h.tick;
  less = h.less;
  settled = tt;
}

module _ {A B : Type 0} where
  after-Tamed :
      (r : Outcome A) (v w : Wire) (f : A → Io B)
      → Tamed w (r, v)
      → ((a : A) → Tame (f a))
      → Tamed w (after r v f)
  after-Tamed (ok a) v w f h k = then_Tamed w v (ok a) _ h ((k a).run v)
  after-Tamed (err e) v w f h k = err_Tamed w v (err e) e h
  after-Tamed panic v w f h k = absurd h.settled
  after-Tamed stuck v w f h k = absurd h.settled

  pub >>=-Tame : (m : Io A) (f : A → Io B) → Tame m → ((a : A) → Tame (f a)) → Tame (m >>= f)
  unfolding ◌>>=◌
  >>=-Tame m f h k = record { run = λ w. after-Tamed (m w).0 (m w).1 w f (h.run w) k }

put_with-Tamed : (fs : List (Option ErrorKind)) (m : Message) (w : Wire) → Tamed w (put_with fs m w)
unfolding put_with
put_with-Tamed [] m w = same_Tamed w _ _ refl refl refl refl refl tt
put_with-Tamed (none ∷ fs) m w = same_Tamed w _ _ refl refl refl refl refl tt
put_with-Tamed (some e ∷ fs) m w = same_Tamed w _ _ refl refl refl refl refl tt

pub put-Tame : (m : Message) → Tame (put m)
unfolding put
put-Tame m = record { run = λ w. put_with-Tamed w.faults m w }
