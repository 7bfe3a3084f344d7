-- ===== src/Stream/Framing.antt =====
-- What `read_line` of src/stream/mod.rs makes of the bytes of a raw stream.
use open_rmbt_server.Common.{
  ℕ, zero, suc, ◌+◌, ◌≤◌, ◌<◌, ◌≡◌, refl, sym, ap, ◌∙◌, inl, inr, Bool, true, false, List, [], ◌∷◌,
  ◌++◌, map, append_assoc, arith, ltb, if◌then◌else◌, Bool-cases, length, length-append, All,
}
use open_rmbt_server.Text.{Bytes, pop_if}
use open_rmbt_server.Text.Search.{Lacks}
use open_rmbt_server.Utf8.{is_utf8}
use open_rmbt_server.Io.{raw, ok, Io, Wire, ◌>>=◌, pure}
use open_rmbt_server.Stream.Defs.{
  read_until, last_is, is_starved, line_of, read_line_raw, read_line_as, read_line,
}

-- What a client may send as a line.
pub record IsLine (l : Bytes) : Type 0 where
  pub no_newline : Lacks b'\n' l
  pub no_return : last_is b'\r' l ≡ false
  pub utf8 : is_utf8 l ≡ true
  pub size : length l ≤ 1022

-- How a line may end.
abbrev pub ending_of : Bool → Bytes
ending_of cr = if cr then b'\r' ∷ b'\n' ∷ [] else b'\n' ∷ []

abbrev pub frame : List (Bytes × Bool) → Bytes
frame [] = []
frame ((l, cr) ∷ ls) = l ++ (ending_of cr ++ frame ls)

read_until-Lacks :
    (n : ℕ) (l rest : Bytes)
    → Lacks b'\n' l
    → length l < n
    → read_until n (l ++ b'\n' ∷ rest) ≡ (l ++ b'\n' ∷ [], rest)
unfolding read_until
read_until-Lacks zero l rest h k = elim k [ ]
read_until-Lacks (suc n) [] rest h k = refl
read_until-Lacks (suc n) (c ∷ l) rest h k = ground (arith, read_until-Lacks n l rest h.1)

pub pop_if-append : (b : ℕ) (s : Bytes) → pop_if b (s ++ b ∷ []) ≡ s
pop_if-append b [] = ground arith
pop_if-append b (c ∷ []) = ground arith
pop_if-append b (c ∷ d ∷ s) = ap (◌∷◌ c) (pop_if-append b (d ∷ s))

pub pop_if-other : (b : ℕ) (s : Bytes) → last_is b s ≡ false → pop_if b s ≡ s
unfolding last_is
pop_if-other b [] h = refl
pop_if-other b (c ∷ []) h = ground arith
pop_if-other b (c ∷ d ∷ s) h = ap (◌∷◌ c) (pop_if-other b (d ∷ s) h)

Lacks-return : (l : Bytes) → Lacks b'\n' l → Lacks b'\n' (l ++ b'\r' ∷ [])
Lacks-return [] h = (omega arith, tt)
Lacks-return (c ∷ l) h = (h.0, Lacks-return l h.1)

-- The line without its end.
abbrev pub strip : Bytes → Bytes
strip buf = pop_if b'\r' (pop_if b'\n' buf)

-- What a line is read from, newline included.
abbrev pub line_with : Bytes → Bool → Bytes
line_with l cr = if cr then l ++ b'\r' ∷ [] else l

strip-line_with :
    (l : Bytes) (cr : Bool) → last_is b'\r' l ≡ false → strip (line_with l cr ++ b'\n' ∷ []) ≡ l
strip-line_with l true h =
    ap (pop_if b'\r') (pop_if-append b'\n' (l ++ b'\r' ∷ [])) ∙ pop_if-append b'\r' l
strip-line_with l false h = ap (pop_if b'\r') (pop_if-append b'\n' l) ∙ pop_if-other b'\r' l h

line_of-ok :
    (buf l : Bytes) (w : Wire)
    → 0 < length buf
    → length buf ≤ 1024
    → strip buf ≡ l
    → is_utf8 l ≡ true
    → line_of buf w ≡ (ok l, w)
unfolding line_of
line_of-ok [] l w h k e u = elim h [ ]
line_of-ok (c ∷ buf) l w h k e u = elim (Bool-cases (ltb 1024 (length (c ∷ buf)))) [
  | inl b ↦ absurd (ground arith)
  | inr b ↦ rw (b, e, u) refl
]

last_is-append : (b : ℕ) (s : Bytes) → last_is b (s ++ b ∷ []) ≡ true
unfolding last_is
last_is-append b [] = ground arith
last_is-append b (c ∷ []) = ground arith
last_is-append b (c ∷ d ∷ s) = last_is-append b (d ∷ s)

is_starved-line : (s rest : Bytes) → is_starved (s ++ b'\n' ∷ []) rest ≡ false
unfolding is_starved
is_starved-line s rest = rw (last_is-append b'\n' s) (ground arith)

pub Lacks-line_with : (l : Bytes) (cr : Bool) → Lacks b'\n' l → Lacks b'\n' (line_with l cr)
Lacks-line_with l true h = Lacks-return l h
Lacks-line_with l false h = h

length-line_with : (l : Bytes) (cr : Bool) → length (line_with l cr) ≤ length l + 1
length-line_with l true = omega (arith, length-append l (b'\r' ∷ []))
length-line_with l false = omega arith

-- A line behind its end, in one piece.
pub frame-cons :
    (l : Bytes) (cr : Bool) (rest : Bytes)
    → l ++ (ending_of cr ++ rest) ≡ line_with l cr ++ b'\n' ∷ rest
frame-cons l true rest = sym (append_assoc l (b'\r' ∷ []) (b'\n' ∷ rest))
frame-cons l false rest = refl

read_line_raw-IsLine :
    (l : Bytes) (cr : Bool) (rest : Bytes) (w : Wire)
    → IsLine l
    → w.input ≡ line_with l cr ++ b'\n' ∷ rest
    → read_line_raw w ≡ (ok l, record w { input = rest })
unfolding read_line_raw
read_line_raw-IsLine l cr rest w h e =
    let k = length-line_with l cr in
    let buf = line_with l cr ++ b'\n' ∷ [] in
    let m = length-append (line_with l cr) (b'\n' ∷ []) in
    rw
      (
        e,
        read_until-Lacks 1025 (line_with l cr) rest (Lacks-line_with l cr h.no_newline)
            (omega (arith, h.size)),
        is_starved-line (line_with l cr) rest,
      )
      (line_of-ok buf l (record w { input = rest }) (omega arith) (omega (arith, h.size))
        (strip-line_with l cr h.no_return) h.utf8)

-- A line that a client sends is the line that is read, and what follows it is left.
pub read_line-IsLine :
    (l : Bytes) (cr : Bool) (rest : Bytes) (w : Wire)
    → IsLine l
    → w.kind ≡ raw
    → w.input ≡ l ++ (ending_of cr ++ rest)
    → read_line w ≡ (ok l, record w { input = rest })
unfolding read_line read_line_as
read_line-IsLine l cr rest w h k e =
    ap (λ q. read_line_as q w) k ∙ (read_line_raw-IsLine l cr rest w h (e ∙ frame-cons l cr rest))

-- `n` lines, one after another.
pub read_lines : ℕ → Io (List Bytes)
read_lines zero = pure []
read_lines (suc n) = do l ← read_line; ls ← read_lines n; pure (l ∷ ls)

abbrev IsFrame : Bytes × Bool → Type 0
IsFrame (l, cr) = IsLine l

-- Lines that a client sends on a raw stream, each ended by a newline, with a carriage return
-- before it or not, are read as sent, one by one, and what follows the last is left unread.
pub read_lines-frame :
    (ls : List (Bytes × Bool)) (rest : Bytes) (w : Wire)
    → All IsFrame ls
    → w.kind ≡ raw
    → w.input ≡ frame ls ++ rest
    → read_lines (length ls) w ≡ (ok (map (λ x. x.0) ls), record w { input = rest })
unfolding read_lines ◌>>=◌
read_lines-frame [] rest w h k e = ap (λ i. (ok [], record w { input = i })) e
read_lines-frame ((l, cr) ∷ ls) rest w h k e =
    let split : w.input ≡ l ++ (ending_of cr ++ (frame ls ++ rest)) =
      e
      ∙ append_assoc l (ending_of cr ++ frame ls) rest
      ∙ ap (◌++◌ l) (append_assoc (ending_of cr) (frame ls) rest) in
    let first = read_line-IsLine l cr (frame ls ++ rest) w h.0 k split in
    let others = read_lines-frame ls rest (record w { input = frame ls ++ rest }) h.1 k refl in
    rw (first, others) refl
