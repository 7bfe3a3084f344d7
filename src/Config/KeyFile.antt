-- ===== src/Config/KeyFile.antt =====
-- Key files as an administrator writes them, read by read_secret_keys of src/config/parser.rs.
use open_rmbt_server.Common.{
  ◌≡◌, refl, sym, ap, ◌∙◌, Bool, true, false, none, some, List, [], ◌∷◌, ◌++◌, map, append-nil,
  append_assoc, arith, ◌==◌, if◌then◌else◌, is_empty, All, Bool-cases, inl, inr,
}
use open_rmbt_server.Text.{Bytes, split, lines, trim, pop_if}
use open_rmbt_server.Text.Search.{Lacks, split_once-char, split_once-none}
use open_rmbt_server.Config.Defs.{SecretKey}
use open_rmbt_server.Config.Keys.{is_skipped, key_of_line, push_keys, read_secret_keys}
use open_rmbt_server.Stream.Defs.{last_is}
use open_rmbt_server.Stream.Framing.{
  ending_of, frame, line_with, frame-cons, pop_if-append, pop_if-other, Lacks-line_with,
}

-- A line of a key file: a key with its label, or a line that is to be skipped.
pub data Entry : Type 0 where
  key : SecretKey → Entry
  remark : Bytes → Entry

abbrev pub with_label : Bytes → Bytes → Bytes
with_label k [] = k
with_label k (c ∷ s) = k ++ b' ' ∷ c ∷ s

abbrev pub key_line : SecretKey → Bytes
key_line k = with_label k.key k.label

abbrev pub text_of : Entry → Bytes
text_of (key k) = key_line k
text_of (remark t) = t

pub record IsKey (k : SecretKey) : Type 0 where
  pub no_space : Lacks b' ' k.key
  pub label : trim k.label ≡ k.label
  pub line : trim (key_line k) ≡ key_line k
  pub kept : is_skipped (key_line k) ≡ false

abbrev IsMeant : Entry → Type 0
IsMeant (key k) = IsKey k
IsMeant (remark t) = is_skipped (trim t) ≡ true

pub record IsEntry (e : Entry) : Type 0 where
  pub meant : IsMeant e
  pub no_newline : Lacks b'\n' (text_of e)
  pub no_return : last_is b'\r' (text_of e) ≡ false

abbrev pub IsLineOf : Entry × Bool → Type 0
IsLineOf (e, cr) = IsEntry e

-- The file, with the kind of each line's end, and the keys in it.
abbrev pub file : List (Entry × Bool) → Bytes
file es = frame (map (λ x. (text_of x.0, x.1)) es)

abbrev pub key_in : Entry → List SecretKey
key_in (key k) = k ∷ []
key_in (remark t) = []

abbrev pub keys_of : List (Entry × Bool) → List SecretKey
keys_of [] = []
keys_of ((e, cr) ∷ es) = key_in e ++ keys_of es

split-Lacks :
    (l rest : Bytes) → Lacks b'\n' l → split b'\n' (l ++ b'\n' ∷ rest) ≡ l ∷ split b'\n' rest
unfolding split
split-Lacks [] rest h = refl
split-Lacks (c ∷ l) rest h = ground (arith, split-Lacks l rest h.1)

split-cons : (s : Bytes) → (f : Bytes) × (fs : List Bytes) × (split b'\n' s ≡ f ∷ fs)
unfolding split
split-cons [] = ([], [], refl)
split-cons (c ∷ s) = elim (Bool-cases (c == b'\n')) [
  | inl b ↦ ([], split b'\n' s, rw b refl)
  | inr b ↦ let (f, fs, e) = split-cons s in (c ∷ f, fs, rw (b, e) refl)
]

pop_if-line_with :
    (l : Bytes) (cr : Bool) → last_is b'\r' l ≡ false → pop_if b'\r' (line_with l cr) ≡ l
pop_if-line_with l true h = pop_if-append b'\r' l
pop_if-line_with l false h = pop_if-other b'\r' l h

-- The first line of a text.
lines-cons :
    (l : Bytes) (cr : Bool) (rest : Bytes)
    → Lacks b'\n' l
    → last_is b'\r' l ≡ false
    → lines (l ++ (ending_of cr ++ rest)) ≡ l ∷ lines rest
unfolding lines
lines-cons l cr rest h k =
    let (f, fs, e) = split-cons rest in
    rw
      (
        frame-cons l cr rest,
        split-Lacks (line_with l cr) rest (Lacks-line_with l cr h),
        e,
        pop_if-line_with l cr k,
      )
      refl

key_of_line-with_label :
    (k l : Bytes)
    → Lacks b' ' k
    → trim l ≡ l
    → key_of_line (with_label k l) ≡ record { key = k; label = l }
unfolding key_of_line
key_of_line-with_label k [] h t = rw (split_once-none b' ' [] k h, key_of_line) refl
key_of_line-with_label k (x ∷ l) h t = rw (split_once-char b' ' k (x ∷ l) h, t, key_of_line) refl

push_keys-cons :
    (l : Bytes) (ls : List Bytes) (acc : List SecretKey)
    → push_keys (l ∷ ls) acc
      ≡ push_keys ls (if is_skipped (trim l) then acc else acc ++ key_of_line (trim l) ∷ [])
unfolding push_keys
push_keys-cons l ls acc = refl

-- What the line of an entry adds.
added :
    (e : Entry) (acc : List SecretKey)
    → IsEntry e
    → (if is_skipped (trim (text_of e)) then acc else acc ++ key_of_line (trim (text_of e)) ∷ [])
      ≡ acc ++ key_in e
added (key k) acc h =
    rw
      (
        h.meant.line,
        h.meant.kept,
        key_of_line-with_label k.key k.label h.meant.no_space h.meant.label,
      )
      refl
added (remark t) acc h = rw h.meant (sym (append-nil acc))

push_keys-file :
    (es : List (Entry × Bool)) (acc : List SecretKey)
    → All IsLineOf es
    → push_keys (lines (file es)) acc ≡ acc ++ keys_of es
push_keys-file [] acc h = unfold push_keys lines in sym (append-nil acc)
push_keys-file ((e, cr) ∷ es) acc h =
    ap (λ ls. push_keys ls acc) (lines-cons (text_of e) cr (file es) h.0.no_newline h.0.no_return)
    ∙ push_keys-cons (text_of e) (lines (file es)) acc
    ∙ ap (push_keys (lines (file es))) (added e acc h.0)
    ∙ push_keys-file es (acc ++ key_in e) h.1
    ∙ append_assoc acc (key_in e) (keys_of es)

-- A key file of lines that each hold a key, or are to be skipped, gives the keys in the file's
-- order, each with its label, and an error if there is none. A key has no space, its label is
-- trimmed, and its line is trimmed and not one to be skipped; lines may end in CR LF.
pub read_secret_keys-file :
    (es : List (Entry × Bool))
    → All IsLineOf es
    → read_secret_keys (some (file es))
      ≡ (if is_empty (keys_of es) then none else some (keys_of es))
unfolding read_secret_keys
read_secret_keys-file es h = rw (push_keys-file es [] h) refl
