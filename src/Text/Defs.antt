-- ===== src/Text/Defs.antt =====
-- `str` and `[u8]` as lists of bytes; a `str` is the list of its UTF-8 bytes. The operations are
-- those of `str` that the program calls, with ASCII patterns, which split UTF-8 only between
-- characters.
use Prim.Native.Char.{code}
use Prim.Native.String.{String}
use open_rmbt_server.Common.{
  ℕ, zero, suc, ◌+◌, Bool, true, false, ◌&&◌, Option, none, some, List, [], ◌∷◌, map, ◌==◌, within,
  if◌then◌else◌, length,
}

abbrev pub Bytes : Type 0
Bytes = List ℕ

-- The code points of a literal, which are its bytes, since every literal here is ASCII.
abbrev pub codes : String → Bytes
codes String.[] = []
codes (String.◌∷◌ c s) = code c ∷ codes s

-- `==` on byte strings.
unfoldable pub eq_bytes : Bytes → Bytes → Bool
eq_bytes [] [] = true
eq_bytes (x ∷ xs) (y ∷ ys) = x == y && eq_bytes xs ys
eq_bytes _ _ = false

-- `s.strip_prefix(p)`.
unfoldable pub strip_prefix : Bytes → Bytes → Option Bytes
strip_prefix [] s = some s
strip_prefix (p ∷ ps) [] = none
strip_prefix (p ∷ ps) (c ∷ s) = if p == c then strip_prefix ps s else none

abbrev pub is_some {ℓ} : {A : Type ℓ} → Option A → Bool
is_some none = false
is_some (some _) = true

-- `s.starts_with(p)`, for `&str` patterns.
unfoldable pub starts_with : Bytes → Bytes → Bool
unfolding strip_prefix
starts_with s p = is_some (strip_prefix p s)

abbrev cons_first : ℕ → Option (Bytes × Bytes) → Option (Bytes × Bytes)
cons_first c none = none
cons_first c (some (a, b)) = some (c ∷ a, b)

-- `s.split_once(p)`: at the first place where `p` stands.
unfoldable pub split_once : Bytes → Bytes → Option (Bytes × Bytes)
unfolding strip_prefix
split_once p [] = elim p [ [] ↦ some ([], []) | _ ↦ none ]
split_once p (c ∷ s) =
    let later = cons_first c (split_once p s) in
    elim (strip_prefix p (c ∷ s)) [ some rest ↦ some ([], rest) | none ↦ later ]

unfoldable pub contains : Bytes → Bytes → Bool
unfolding split_once
contains s p = is_some (split_once p s)

-- `s.splitn(n, sep)` collected.
unfoldable pub splitn : ℕ → ℕ → Bytes → List Bytes
unfolding split_once
splitn zero sep s = []
splitn (suc zero) sep s = s ∷ []
splitn (suc (suc n)) sep s = elim (split_once (sep ∷ []) s) [
  | none ↦ s ∷ []
  | some (a, b) ↦ a ∷ splitn (suc n) sep b
]

abbrev add_first : ℕ → List Bytes → List Bytes
add_first c [] = (c ∷ []) ∷ []
add_first c (f ∷ fs) = (c ∷ f) ∷ fs

-- `s.split(sep)` for one ASCII character: never empty.
unfoldable pub split : ℕ → Bytes → List Bytes
split sep [] = [] ∷ []
split sep (c ∷ s) = if c == sep then [] ∷ split sep s else add_first c (split sep s)

-- `fields.next().unwrap_or(d)`.
abbrev pub next_or : Bytes → List Bytes → Bytes
next_or d [] = d
next_or d (f ∷ fs) = f

abbrev pub rest_of : List Bytes → List Bytes
rest_of [] = []
rest_of (f ∷ fs) = fs

-- `s.split("\r\n")`: fuel is one more than the bytes left.
unfoldable pub split_crlf_fuel : ℕ → Bytes → List Bytes
unfolding split_once
split_crlf_fuel zero s = s ∷ []
split_crlf_fuel (suc n) s = elim (split_once (13 ∷ 10 ∷ []) s) [
  | none ↦ s ∷ []
  | some (a, b) ↦ a ∷ split_crlf_fuel n b
]

unfoldable pub split_crlf : Bytes → List Bytes
unfolding split_crlf_fuel
split_crlf s = split_crlf_fuel (suc (length s)) s

-- `u8::to_ascii_lowercase`, on one byte and on each.
abbrev pub lower : ℕ → ℕ
lower c = if within b'A' b'Z' c then c + 32 else c

unfoldable pub to_ascii_lowercase : Bytes → Bytes
to_ascii_lowercase = map lower

unfoldable pub eq_ignore_ascii_case : Bytes → Bytes → Bool
unfolding to_ascii_lowercase eq_bytes
eq_ignore_ascii_case a b = eq_bytes (to_ascii_lowercase a) (to_ascii_lowercase b)

-- The drop of one trailing byte, if it is `b`.
abbrev pub pop_if : ℕ → Bytes → Bytes
pop_if b [] = []
pop_if b (c ∷ s) = elim s [ [] ↦ if c == b then [] else c ∷ [] | _ ↦ c ∷ pop_if b s ]

-- `s.lines()`: no line behind the last newline, and a `\r` before a newline is dropped.
-- (`Lines` in std strips the `\n` first and then one `\r`; an unterminated last line keeps it.)
abbrev strip_cr : List Bytes → List Bytes
strip_cr [] = []
strip_cr ([] ∷ []) = []
strip_cr ((c ∷ l) ∷ []) = (c ∷ l) ∷ []
strip_cr (l ∷ m ∷ ls) = pop_if 13 l ∷ strip_cr (m ∷ ls)

unfoldable pub lines : Bytes → List Bytes
unfolding split
lines s = strip_cr (split b'\n' s)
