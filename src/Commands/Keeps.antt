-- ===== src/Commands/Keeps.antt =====
-- What each call of a handler of src/protocol/commands.rs keeps: a chunk size in range, and no
-- panic.
use open_rmbt_server.Common.{
  ℕ, zero, suc, ◌+◌, ◌-◌, ◌≤◌, ◌<◌, ◌≡◌, refl, ap, inl, inr, Bool, true, false, Option, none, some,
  List, [], ◌∷◌, ◌++◌, arith, ltb, leb, if◌then◌else◌, leb→le, Bool-cases, Option-cases, length,
  take, is_empty, length-append, length-take,
}
use open_rmbt_server.Text.{Bytes, codes, pop_if, parse_unsigned, u64_max}
use open_rmbt_server.Config.Defs.{min_chunk_size, max_chunk_size}
use open_rmbt_server.Io.{
  StreamKind, raw, websocket, Message, raw_bytes, put_with, Outcome, ok, err, panic, stuck, Io,
  Wire, Frame, text, binary, close, control, io_error, ws_error, ErrorKind, put,
}
use open_rmbt_server.Io
use open_rmbt_server.Stats.{ConnStats}
use open_rmbt_server.Utf8.{is_utf8}
use open_rmbt_server.Stream.Defs.{
  put_message, flush_with, ws_flush, cut_off, read_line_as, as_other, message_of, write_as,
  read_exact_as, is_starved, read_until, read_line, read_line_raw, line_of, next_line, write_all,
  write_line, read_exact, fill,
}
use open_rmbt_server.Commands.Defs.{
  Session, Cmd, after, ◌>>=◌, pure, on, gets, update_stats, some_or_panic, elapsed,
  parse_chunk_size, choose_chunk_size, out_of_fuel, store_chunk_size, set_chunk_size, set_last,
  mark, send_chunk,
}

-- What an outcome that is no panic carries.
abbrev pub Post : {A : Type 0} → (A → Type 0) → Outcome A → Type 0
Post P (ok a) = P a
Post P (err e) = Unit
Post P panic = ⊥
Post P stuck = Unit

abbrev pub InRange : ℕ → Type 0
InRange cs = (min_chunk_size ≤ cs) × (cs ≤ max_chunk_size)

abbrev pub Safe : {A : Type 0} → (A → Type 0) → Outcome A × Session → Type 0
Safe P x = InRange (x.1).chunk_size × Post P x.0

-- From a chunk size in range the command ends with one, does not panic, and returns what P says.
pub record Keeps {A : Type 0} (P : A → Type 0) (m : Cmd A) : Type 0 where
  pub run : (s : Session) → InRange s.chunk_size → Safe P (m s)

abbrev pub Any : {A : Type 0} → A → Type 0
Any a = Unit

module _ {A B : Type 0} where
  after-Safe :
      (P : A → Type 0) (Q : B → Type 0) (r : Outcome A) (s : Session) (f : A → Cmd B)
      → Safe P (r, s)
      → ((a : A) → P a → Keeps Q (f a))
      → Safe Q (after r s f)
  after-Safe P Q (ok a) s f h k = (k a h.1).run s h.0
  after-Safe P Q (err e) s f h k = (h.0, tt)
  after-Safe P Q panic s f h k = absurd h.1
  after-Safe P Q stuck s f h k = (h.0, tt)

  pub >>=-Keeps :
      (P : A → Type 0) (Q : B → Type 0) (m : Cmd A) (f : A → Cmd B)
      → Keeps P m
      → ((a : A) → P a → Keeps Q (f a))
      → Keeps Q (m >>= f)
  unfolding ◌>>=◌
  >>=-Keeps P Q m f h k = record { run = λ s i. after-Safe P Q (m s).0 (m s).1 f (h.run s i) k }

on-Keeps : {A : Type 0} (P : A → Type 0) (m : Io A) → ((w : Wire) → Post P (m w).0) → Keeps P (on m)
unfolding on
on-Keeps P m h = record { run = λ s i. (i, h s.wire) }

pub pure-Keeps : {A : Type 0} (P : A → Type 0) (a : A) → P a → Keeps P (pure a)
unfolding pure
pure-Keeps P a h = record { run = λ s i. (i, h) }

module _ {A : Type 0} (P : A → Type 0) where
  if-Post :
      (b : Bool) (m k : Io A) (w : Wire)
      → Post P (m w).0
      → Post P (k w).0
      → Post P ((if b then m else k) w).0
  if-Post true m k w h i = h
  if-Post false m k w h i = i

  if_pair-Post :
      (b : Bool) (x y : Outcome A × Wire) → Post P x.0 → Post P y.0 → Post P (if b then x else y).0
  if_pair-Post true x y h i = h
  if_pair-Post false x y h i = i

  pub if-Keeps : (b : Bool) (m k : Cmd A) → Keeps P m → Keeps P k → Keeps P (if b then m else k)
  if-Keeps true m k h i = h
  if-Keeps false m k h i = i

-- The calls on the stream.
put_with-Post :
    (fs : List (Option ErrorKind)) (m : Message) (w : Wire) → Post Any (put_with fs m w).0
unfolding put_with
put_with-Post [] m w = tt
put_with-Post (none ∷ fs) m w = tt
put_with-Post (some e ∷ fs) m w = tt

as_other-Post : (r : Outcome (Unit {0})) → Post Any r → Post Any (as_other r)
as_other-Post (ok a) h = tt
as_other-Post (err e) h = tt
as_other-Post panic h = h
as_other-Post stuck h = tt

flush_with-Post : (fs : List (Option ErrorKind)) (w : Wire) → Post Any (flush_with fs w).0
unfolding flush_with
flush_with-Post [] w = tt
flush_with-Post (none ∷ fs) w = tt
flush_with-Post (some e ∷ fs) w = tt

flushed-Post :
    (r : Outcome (Unit {0})) (w : Wire) → Post Any r → Post Any (Io.after r w λ _. ws_flush).0
unfolding ws_flush
flushed-Post (ok a) w h = flush_with-Post w.faults w
flushed-Post (err e) w h = h
flushed-Post panic w h = h
flushed-Post stuck w h = h

write_as-Post : (k : StreamKind) (b : Bytes) (w : Wire) → Post Any (write_as k b w).0
unfolding write_as put_message put Io.◌>>=◌
write_as-Post raw b w = put_with-Post w.faults (raw_bytes b) w
write_as-Post websocket b w =
    as_other-Post _ (flushed-Post _ _ (put_with-Post w.faults (message_of b) w))

pub write_all-Keeps : (b : Bytes) → Keeps Any (on (write_all b))
unfolding write_all
write_all-Keeps b = on-Keeps Any (write_all b) (λ w. write_as-Post w.kind b w)

line_of-Post : (b : Bytes) (w : Wire) → Post Any (line_of b w).0
unfolding line_of
line_of-Post b w = if-Post Any (is_empty b) _ _ w tt (
    if-Post Any (ltb 1024 (length b)) _ _ w tt
      (if-Post Any (is_utf8 (pop_if b'\r' (pop_if b'\n' b))) _ _ w tt tt))

cut_off-Post :
    (e : Option ErrorKind) (x : Outcome Bytes × Wire) → Post Any x.0 → Post Any (cut_off e x).0
cut_off-Post none x h = h
cut_off-Post (some e) x h = tt

read_line_raw-Post : (w : Wire) → Post Any (read_line_raw w).0
unfolding read_line_raw
read_line_raw-Post w =
    let (buf, rest) = read_until 1025 w.input in
    let settled = line_of-Post buf (record w { input = rest }) in
    if_pair-Post Any (is_starved buf rest) _ _ (cut_off-Post w.ending _ settled) settled

next_line-Post : (fs : List Frame) → Post Any (next_line fs).0
unfolding next_line
next_line-Post [] = tt
next_line-Post (text t ∷ fs) = tt
next_line-Post (binary t ∷ fs) = tt
next_line-Post (close ∷ fs) = tt
next_line-Post (control ∷ fs) = next_line-Post fs
next_line-Post (io_error e ∷ fs) = tt
next_line-Post (ws_error ∷ fs) = tt

read_line_as-Post : (k : StreamKind) (w : Wire) → Post Any (read_line_as k w).0
unfolding read_line_as
read_line_as-Post raw w = read_line_raw-Post w
read_line_as-Post websocket w = next_line-Post w.frames

pub read_line-Keeps : Keeps Any (on read_line)
unfolding read_line
read_line-Keeps = on-Keeps Any read_line (λ w. read_line_as-Post w.kind w)

abbrev pub HasSize : ℕ → Bytes → Type 0
HasSize n b = length b ≡ n

fill-Post :
    (fs : List Frame) (n : ℕ) (filled : Bytes) (total : ℕ)
    → length filled + n ≡ total
    → Post (HasSize total) (fill n filled fs).0
unfolding fill
fill-Post fs zero filled total h = omega arith
fill-Post [] (suc n) filled total h = tt
fill-Post (text t ∷ fs) (suc n) filled total h =
    fill-Post fs (suc n - length t) (filled ++ take (suc n) t) total
      (omega (arith, length-append filled (take (suc n) t), length-take (suc n) t))
fill-Post (binary t ∷ fs) (suc n) filled total h =
    fill-Post fs (suc n - length t) (filled ++ take (suc n) t) total
      (omega (arith, length-append filled (take (suc n) t), length-take (suc n) t))
fill-Post (close ∷ fs) (suc n) filled total h = tt
fill-Post (control ∷ fs) (suc n) filled total h = fill-Post fs (suc n) filled total h
fill-Post (io_error e ∷ fs) (suc n) filled total h = tt
fill-Post (ws_error ∷ fs) (suc n) filled total h = tt

read_exact_as-Post : (k : StreamKind) (n : ℕ) (w : Wire) → Post (HasSize n) (read_exact_as k n w).0
unfolding read_exact_as
read_exact_as-Post raw n w = elim (Bool-cases (leb n (length w.input))) [
  | inl e ↦ rw e (omega (arith, length-take n w.input, leb→le n (length w.input) e))
  | inr e ↦ rw e tt
]
read_exact_as-Post websocket n w = fill-Post w.frames n [] n (omega arith)

pub read_exact-Keeps : (n : ℕ) → Keeps (HasSize n) (on (read_exact n))
unfolding read_exact
read_exact-Keeps n = on-Keeps (HasSize n) (read_exact n) (λ w. read_exact_as-Post w.kind n w)

pub err-Keeps : Keeps Any (on (write_line (codes "ERR\n")))
err-Keeps = write_all-Keeps (codes "ERR\n")

parse_chunk_size-InRange :
    (arg : Bytes) (cs : ℕ) → parse_chunk_size arg max_chunk_size ≡ some cs → InRange cs
unfolding parse_chunk_size
parse_chunk_size-InRange arg cs h = elim (Option-cases (parse_unsigned u64_max arg)) [
  | inl e ↦ absurd (ground arith)
  | inr (n, e) ↦ ground arith
]

store_chunk_size-Keeps : (cs : ℕ) → InRange cs → Keeps Any (store_chunk_size cs)
unfolding store_chunk_size
store_chunk_size-Keeps cs h = record { run = λ s i. (h, tt) }

pub out_of_fuel-Keeps : {A : Type 0} → Keeps {A = A} Any out_of_fuel
unfolding out_of_fuel
out_of_fuel-Keeps = record { run = λ s i. (i, tt) }

choose_chunk_size-Keeps :
    (o : Option ℕ) → ((cs : ℕ) → o ≡ some cs → InRange cs) → Keeps Any (choose_chunk_size o)
unfolding choose_chunk_size
choose_chunk_size-Keeps none h = >>=-Keeps Any Any _ _ err-Keeps (λ _ _. pure-Keeps Any false tt)
choose_chunk_size-Keeps (some cs) h = store_chunk_size-Keeps cs (h cs refl)

pub set_chunk_size-Keeps : (arg : Bytes) → Keeps Any (set_chunk_size arg)
unfolding set_chunk_size
set_chunk_size-Keeps arg =
    if-Keeps Any (is_empty arg) _ _ (pure-Keeps Any true tt)
      (choose_chunk_size-Keeps _ (parse_chunk_size-InRange arg))

set_last-length :
    (b x : ℕ) (xs : Bytes)
    → (ys : Bytes) × (set_last b (x ∷ xs) ≡ some ys) × (length ys ≡ suc (length xs))
unfolding set_last
set_last-length b x [] = (b ∷ [], refl, refl)
set_last-length b x (y ∷ xs) =
    let (ys, e, l) = set_last-length b y xs in (x ∷ ys, ground arith, ap suc l)

pub some-Keeps : {A : Type 0} (P : A → Type 0) (a : A) → P a → Keeps P (some_or_panic (some a))
unfolding some_or_panic
some-Keeps P a h = record { run = λ s i. (i, h) }

pub set_last-Keeps :
    (b : ℕ) (buf : Bytes)
    → 0 < length buf
    → Keeps (HasSize (length buf)) (some_or_panic (set_last b buf))
set_last-Keeps b [] h = absurd (omega arith)
set_last-Keeps b (x ∷ xs) h =
    let (ys, e, l) = set_last-length b x xs in rw e (some-Keeps (HasSize (length (x ∷ xs))) ys l)

pub send_chunk-Keeps :
    (terminal : Bool) (buf : Bytes)
    → 0 < length buf
    → Keeps (HasSize (length buf)) (send_chunk terminal buf)
unfolding send_chunk
send_chunk-Keeps terminal buf h =
    >>=-Keeps (HasSize (length buf)) (HasSize (length buf)) _ _
      (set_last-Keeps (mark terminal) buf h)
      λ buf' l.
        >>=-Keeps Any (HasSize (length buf)) _ _ (write_all-Keeps buf')
          λ _ _. pure-Keeps (HasSize (length buf)) buf' l

pub elapsed-Keeps : (start : ℕ) → Keeps Any (elapsed start)
unfolding elapsed
elapsed-Keeps start = record { run = λ s i. (i, tt) }

pub now-Keeps : Keeps Any (on Io.now)
now-Keeps = on-Keeps Any Io.now (λ w. tt)

pub update_stats-Keeps : (f : ConnStats → ConnStats) → Keeps Any (update_stats f)
unfolding update_stats
update_stats-Keeps f = record { run = λ s i. (i, tt) }

pub chunk_size-Keeps : Keeps InRange (gets (λ s. s.chunk_size))
unfolding gets
chunk_size-Keeps = record { run = λ s i. (i, i) }
