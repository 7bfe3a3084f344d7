-- ===== src/Stream/Tame.antt =====
-- What the calls on the stream of src/stream/mod.rs take from the wire: no more than there is, and
-- at least something when a line or a block is returned.
use open_rmbt_server.Common.{
  ℕ, zero, suc, ◌+◌, ◌-◌, ◌≤◌, ◌<◌, ◌≡◌, refl, inl, inr, Bool, true, false, Option, none, some,
  List, [], ◌∷◌, arith, ltb, leb, ◌==◌, if◌then◌else◌, leb→le, Bool-cases, length, drop,
  length-drop,
}
use open_rmbt_server.Text.{Bytes, pop_if}
use open_rmbt_server.Utf8.{is_utf8}
use open_rmbt_server.Io.{
  ErrorKind, StreamKind, raw, websocket, Frame, text, binary, close, control, io_error, ws_error,
  Outcome, ok, err, panic, stuck, Wire,
}
use open_rmbt_server.Io.Tame.{left, Tamed, Tame, same_Tamed, >>=-Tame, read_Tamed, put-Tame}
use open_rmbt_server.Stream.Defs.{
  as_other, flush_with, ws_flush, put_message, message_of, write_as, write_all, line_of, cut_off,
  is_starved, read_until, read_line_raw, next_line, read_line_as, read_line, fill, read_exact_as,
  read_exact,
}

-- On success something was read.
abbrev pub Eats : {A : Type 0} → Wire → Outcome A × Wire → Type 0
Eats w (ok a, v) = left v < left w
Eats w (err e, v) = Unit
Eats w (panic, v) = Unit
Eats w (stuck, v) = Unit

as_other-Tamed : (w v : Wire) (r : Outcome (Unit {0})) → Tamed w (r, v) → Tamed w (as_other r, v)
as_other-Tamed w v (ok a) h = h
as_other-Tamed w v (err e) h = record {
  peer = h.peer;
  ticks = h.ticks;
  tick = h.tick;
  less = h.less;
  settled = tt;
}
as_other-Tamed w v panic h = absurd h.settled
as_other-Tamed w v stuck h = absurd h.settled

flush_with-Tamed : (fs : List (Option ErrorKind)) (w : Wire) → Tamed w (flush_with fs w)
unfolding flush_with
flush_with-Tamed [] w = same_Tamed w _ _ refl refl refl refl refl tt
flush_with-Tamed (none ∷ fs) w = same_Tamed w _ _ refl refl refl refl refl tt
flush_with-Tamed (some e ∷ fs) w = same_Tamed w _ _ refl refl refl refl refl tt

ws_flush-Tame : Tame ws_flush
unfolding ws_flush
ws_flush-Tame = record { run = λ w. flush_with-Tamed w.faults w }

write_as-Tamed : (k : StreamKind) (b : Bytes) (w : Wire) → Tamed w (write_as k b w)
unfolding write_as
write_as-Tamed raw b w = (put-Tame _).run w
write_as-Tamed websocket b w =
    unfold put_message in
    as_other-Tamed w _ _ ((>>=-Tame _ _ (put-Tame (message_of b)) λ _. ws_flush-Tame).run w)

pub write_all-Tame : (b : Bytes) → Tame (write_all b)
unfolding write_all
write_all-Tame b = record { run = λ w. write_as-Tamed w.kind b w }

-- What a read gives: it takes nothing back, and takes something if it succeeds.
abbrev Reads : {A : Type 0} → Wire → Outcome A × Wire → Type 0
Reads w x = Tamed w x × Eats w x

length-read_until :
    (n : ℕ) (s : Bytes) → length (read_until n s).0 + length (read_until n s).1 ≡ length s
unfolding read_until
length-read_until zero s = omega arith
length-read_until (suc n) [] = refl
length-read_until (suc n) (c ∷ s) = elim (Bool-cases (c == 10)) [
  | inl b ↦ rw b (omega arith)
  | inr b ↦ rw b (omega (arith, length-read_until n s))
]

refused :
    {A : Type 0} (w : Wire) (rest : Bytes) (e : ErrorKind)
    → length rest ≤ length w.input
    → Reads {A = A} w (err e, record w { input = rest })
refused w rest e h = (read_Tamed w rest (err e) h tt, tt)

line_of-Reads :
    (w : Wire) (buf rest : Bytes)
    → length buf + length rest ≡ length w.input
    → Reads w (line_of buf (record w { input = rest }))
unfolding line_of left
line_of-Reads w [] rest h = refused w rest _ (omega (arith, h))
line_of-Reads w (c ∷ buf) rest h = elim (Bool-cases (ltb 1024 (length (c ∷ buf)))) [
  | inl b ↦ rw b (refused w rest _ (omega (arith, h)))
  | inr b ↦ rw b (elim (Bool-cases (is_utf8 (pop_if b'\r' (pop_if b'\n' (c ∷ buf))))) [
    | inl d ↦ rw d (read_Tamed w rest (ok _) (omega (arith, h)) tt, omega (arith, h))
    | inr d ↦ rw d (refused w rest _ (omega (arith, h)))
  ])
]

cut_off-Reads :
    (w : Wire) (o : Option ErrorKind) (x : Outcome Bytes × Wire) → Reads w x → Reads w (cut_off o x)
cut_off-Reads w none x h = h
cut_off-Reads w (some e) x h =
    let t = h.0 in
    (record { peer = t.peer; ticks = t.ticks; tick = t.tick; less = t.less; settled = tt }, tt)

if-Reads :
    (w : Wire) (b : Bool) (x y : Outcome Bytes × Wire)
    → Reads w x
    → Reads w y
    → Reads w (if b then x else y)
if-Reads w true x y h i = h
if-Reads w false x y h i = i

read_line_raw-Reads : (w : Wire) → Reads w (read_line_raw w)
unfolding read_line_raw
read_line_raw-Reads w =
    let (buf, rest) = read_until 1025 w.input in
    let settled = line_of-Reads w buf rest (length-read_until 1025 w.input) in
    if-Reads w (is_starved buf rest) _ _ (cut_off-Reads w w.ending _ settled) settled

-- What a read of frames gives.
abbrev Takes : {A : Type 0} → ℕ → Outcome A × List Frame → Type 0
Takes n (ok a, fs) = length fs < n
Takes n (err e, fs) = length fs ≤ n
Takes n (panic, fs) = ⊥
Takes n (stuck, fs) = ⊥

Takes-Reads :
    {A : Type 0} (w : Wire) (r : Outcome A) (fs : List Frame)
    → Takes (length w.frames) (r, fs)
    → Reads w (r, record w { frames = fs })
unfolding left
Takes-Reads w (ok a) fs h = (
  record { peer = refl; ticks = refl; tick = refl; less = omega (arith, h); settled = tt },
  omega (arith, h),
)
Takes-Reads w (err e) fs h =
    (record { peer = refl; ticks = refl; tick = refl; less = omega (arith, h); settled = tt }, tt)
Takes-Reads w panic fs h = absurd h
Takes-Reads w stuck fs h = absurd h

-- One more frame before it.
Takes-suc : {A : Type 0} (n : ℕ) (x : Outcome A × List Frame) → Takes n x → Takes (suc n) x
Takes-suc n (ok a, fs) h = omega (arith, h)
Takes-suc n (err e, fs) h = omega (arith, h)
Takes-suc n (panic, fs) h = h
Takes-suc n (stuck, fs) h = h

next_line-Takes : (fs : List Frame) → Takes (length fs) (next_line fs)
unfolding next_line
next_line-Takes [] = omega arith
next_line-Takes (text t ∷ fs) = omega arith
next_line-Takes (binary b ∷ fs) = omega arith
next_line-Takes (close ∷ fs) = omega arith
next_line-Takes (control ∷ fs) = Takes-suc (length fs) _ (next_line-Takes fs)
next_line-Takes (io_error e ∷ fs) = omega arith
next_line-Takes (ws_error ∷ fs) = omega arith

read_line_as-Reads : (k : StreamKind) (w : Wire) → Reads w (read_line_as k w)
unfolding read_line_as
read_line_as-Reads raw w = read_line_raw-Reads w
read_line_as-Reads websocket w = Takes-Reads w _ _ (next_line-Takes w.frames)

pub read_line-Tame : Tame read_line
unfolding read_line
read_line-Tame = record { run = λ w. (read_line_as-Reads w.kind w).0 }

pub read_line-Eats : (w : Wire) → Eats w (read_line w)
unfolding read_line
read_line-Eats w = (read_line_as-Reads w.kind w).1

-- The same without the claim that something was taken, for a fill that may be complete.
abbrev Leaves : {A : Type 0} → ℕ → Outcome A × List Frame → Type 0
Leaves n (ok a, fs) = length fs ≤ n
Leaves n (err e, fs) = length fs ≤ n
Leaves n (panic, fs) = ⊥
Leaves n (stuck, fs) = ⊥

Leaves-suc : {A : Type 0} (n : ℕ) (x : Outcome A × List Frame) → Leaves n x → Takes (suc n) x
Leaves-suc n (ok a, fs) h = omega (arith, h)
Leaves-suc n (err e, fs) h = omega (arith, h)
Leaves-suc n (panic, fs) h = h
Leaves-suc n (stuck, fs) h = h

-- A fill leaves some of the frames, and takes one if `need` bytes were missing.
abbrev Fills : {A : Type 0} → ℕ → ℕ → Outcome A × List Frame → Type 0
Fills zero n x = Leaves n x
Fills (suc need) n x = Takes n x

Fills-suc :
    {A : Type 0} (need n : ℕ) (x : Outcome A × List Frame) → Fills need n x → Takes (suc n) x
Fills-suc zero n x h = Leaves-suc n x h
Fills-suc (suc need) n x h = Takes-suc n x h

fill-Fills :
    (fs : List Frame) (need : ℕ) (filled : Bytes) → Fills need (length fs) (fill need filled fs)
unfolding fill
fill-Fills fs zero filled = omega arith
fill-Fills [] (suc n) filled = omega arith
fill-Fills (text t ∷ fs) (suc n) filled =
    Fills-suc _ (length fs) _ (fill-Fills fs (suc n - length t) _)
fill-Fills (binary b ∷ fs) (suc n) filled =
    Fills-suc _ (length fs) _ (fill-Fills fs (suc n - length b) _)
fill-Fills (close ∷ fs) (suc n) filled = omega arith
fill-Fills (control ∷ fs) (suc n) filled = Takes-suc (length fs) _ (fill-Fills fs (suc n) filled)
fill-Fills (io_error e ∷ fs) (suc n) filled = omega arith
fill-Fills (ws_error ∷ fs) (suc n) filled = omega arith

read_exact_as-Reads : (k : StreamKind) (n : ℕ) (w : Wire) → Reads w (read_exact_as k (suc n) w)
unfolding read_exact_as left
read_exact_as-Reads raw n w = elim (Bool-cases (leb (suc n) (length w.input))) [
  | inl b ↦ rw b (
    read_Tamed w (drop (suc n) w.input) (ok _) (omega (arith, length-drop (suc n) w.input)) tt,
    omega (arith, length-drop (suc n) w.input, leb→le (suc n) (length w.input) b),
  )
  | inr b ↦ rw b (refused w [] _ (omega arith))
]
read_exact_as-Reads websocket n w = Takes-Reads w _ _ (fill-Fills w.frames (suc n) [])

-- A read of at least one byte.
pub read_exact-Reads :
    (n : ℕ) (w : Wire) → Tamed w (read_exact (suc n) w) × Eats w (read_exact (suc n) w)
unfolding read_exact
read_exact-Reads n w = read_exact_as-Reads w.kind n w
