-- ===== src/Events/RoundTrip.antt =====
-- The strings of the events of src/events.rs, read back as RFC 8259 says.
use open_rmbt_server.Common.{
  ℕ, zero, suc, ◌+◌, ◌-◌, ◌*◌, ◌/◌, ◌%◌, ◌<◌, ◌≡◌, refl, sym, ap, ◌∙◌, subst, inl, inr, true, false,
  Option, none, some, [], ◌∷◌, ◌++◌, append_assoc, arith, ltb, ◌==◌, if◌then◌else◌, within, ltb→lt,
  ==_iff, Bool-cases,
}
use open_rmbt_server.Text.{Bytes}
use open_rmbt_server.Events.Escape.{hex_digit, escape_byte, json_escape}

unfoldable pub hex_value : ℕ → Option ℕ
hex_value c =
    if within b'0' b'9' c
    then some (c - b'0')
    else if within b'a' b'f' c
    then some (c - b'a' + 10)
    else if within b'A' b'F' c
    then some (c - b'A' + 10)
    else none

-- The character behind a `\`, other than `u`.
unfoldable pub short_escape : ℕ → Option ℕ
short_escape c =
    if c == 34
    then some 34
    else if c == 92
    then some 92
    else if c == b'/'
    then some b'/'
    else if c == b'b'
    then some 8
    else if c == b'f'
    then some 12
    else if c == b'n'
    then some 10
    else if c == b'r'
    then some 13
    else if c == b't'
    then some 9
    else none

-- Where a reader of a JSON string is: in the text, behind a `\`, or in the digits of `\u`, with
-- their value so far.
pub data Reader : Type 0 where
  in_text behind_backslash : Reader
  in_digits : ℕ → ℕ → Reader

abbrev cons_some : ℕ → Option (Bytes × Bytes) → Option (Bytes × Bytes)
cons_some c none = none
cons_some c (some (s, rest)) = some (c ∷ s, rest)

-- The rest of a JSON string, up to its closing quote: its bytes, and what follows the quote.
-- Control characters are refused, and so are code points above 127, which this reader leaves out.
unfoldable pub read_string : Reader → Bytes → Option (Bytes × Bytes)
unfolding hex_value short_escape
read_string r [] = none
read_string in_text (c ∷ s) =
    let quoted = read_string behind_backslash s in
    let later = cons_some c (read_string in_text s) in
    if ltb c 32 then none else if c == 34 then some ([], s) else if c == 92 then quoted else later
read_string behind_backslash (c ∷ s) =
    let digits = read_string (in_digits 3 0) s in
    let later = read_string in_text s in
    if c == b'u' then digits else elim (short_escape c) [ none ↦ none | some e ↦ cons_some e later ]
read_string (in_digits n v) (c ∷ s) = elim (hex_value c) [
  | none ↦ none
  | some d ↦ elim n [
    | zero ↦ if ltb (v * 16 + d) 128 then cons_some (v * 16 + d) (read_string in_text s) else none
    | suc m ↦ read_string (in_digits m (v * 16 + d)) s
  ]
]

hex_value-hex_digit : (d : ℕ) → d < 16 → hex_value (hex_digit d) ≡ some d
unfolding hex_value
hex_value-hex_digit d h = ground arith

-- The `\u00XX` form of an ASCII character.
read-unicode_escape :
    (c : ℕ) (s : Bytes)
    → c < 128
    → read_string in_text (92 ∷ b'u' ∷ b'0' ∷ b'0' ∷ hex_digit (c / 16) ∷ hex_digit (c % 16) ∷ s)
      ≡ cons_some c (read_string in_text s)
unfolding read_string hex_value
read-unicode_escape c s h =
    rw (hex_value-hex_digit (c / 16) (omega arith), hex_value-hex_digit (c % 16) (omega arith))
      (ground (arith, value))
  where
    value : c / 16 * 16 + c % 16 ≡ c
    value = omega arith

escape_byte_control :
    (c : ℕ)
    → ltb c 32 ≡ true
    → (c == 10) ≡ false
    → (c == 13) ≡ false
    → (c == 9) ≡ false
    → escape_byte c ≡ 92 ∷ b'u' ∷ b'0' ∷ b'0' ∷ hex_digit (c / 16) ∷ hex_digit (c % 16) ∷ []
unfolding escape_byte
escape_byte_control c h a b d = rw (no_quote, no_backslash, a, b, d, h) refl
  where
    no_quote : (c == 34) ≡ false
    no_quote = ground arith

    no_backslash : (c == 92) ≡ false
    no_backslash = ground arith

IsReadBack : Bytes → ℕ → Type 0
IsReadBack s c = read_string in_text (escape_byte c ++ s) ≡ cons_some c (read_string in_text s)

at_value : (P : ℕ → Type 0) (c d : ℕ) → (c == d) ≡ true → P d → P c
at_value P c d h p = subst P (sym ((==_iff c d).0 h)) p

-- One escaped byte is read back as that byte.
read-escape_byte :
    (c : ℕ) (s : Bytes)
    → read_string in_text (escape_byte c ++ s) ≡ cons_some c (read_string in_text s)
unfolding escape_byte read_string short_escape IsReadBack
read-escape_byte c s = elim (Bool-cases (ltb c 32)) [
  | inr e ↦ ground arith
  | inl e ↦ elim (Bool-cases (c == 10)) [
    | inl h ↦ at_value (IsReadBack s) c 10 h refl
    | inr a ↦ elim (Bool-cases (c == 13)) [
      | inl h ↦ at_value (IsReadBack s) c 13 h refl
      | inr b ↦ elim (Bool-cases (c == 9)) [
        | inl h ↦ at_value (IsReadBack s) c 9 h refl
        | inr d ↦
            ap (λ x. read_string in_text (x ++ s)) (escape_byte_control c e a b d)
            ∙ read-unicode_escape c s (omega (arith, ltb→lt c 32 e))
      ]
    ]
  ]
]

-- An escaped byte string, with a quote behind it, is read as a JSON string with the same bytes,
-- whatever follows: no byte of it ends the string early, and no byte of it is a control character.
pub read_string-json_escape :
    (s rest : Bytes) → read_string in_text (json_escape s ++ 34 ∷ rest) ≡ some (s, rest)
unfolding json_escape read_string
read_string-json_escape [] rest = refl
read_string-json_escape (c ∷ s) rest =
    ap (read_string in_text) (append_assoc (escape_byte c) (json_escape s) (34 ∷ rest))
    ∙ read-escape_byte c (json_escape s ++ 34 ∷ rest)
    ∙ ap (cons_some c) (read_string-json_escape s rest)
