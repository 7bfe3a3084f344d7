-- ===== src/Text/Number.antt =====
-- `str::parse` for integers, and their decimal `Display`.
use open_rmbt_server.Common.{
  ℕ, zero, suc, ◌+◌, ◌-◌, ◌*◌, ◌/◌, ◌%◌, ◌^◌, Bool, true, false, Option, none, some, [], ◌∷◌, ltb,
  leb, ◌==◌, within, if◌then◌else◌,
}
use open_rmbt_server.Int.{ℤ, pos, negsuc, sub_ℕ}
use open_rmbt_server.Text.Defs.{Bytes}

abbrev pub is_digit : ℕ → Bool
is_digit c = within b'0' b'9' c

-- The digits behind an optional sign, with the overflow check of each step.
unfoldable pub parse_digits : ℕ → ℕ → Bytes → Option ℕ
parse_digits limit acc [] = some acc
parse_digits limit acc (c ∷ s) =
    let rest = parse_digits limit (acc * 10 + (c - b'0')) s in
    if is_digit c then (if leb (acc * 10 + (c - b'0')) limit then rest else none) else none

abbrev pub non_empty_digits : ℕ → Bytes → Option ℕ
non_empty_digits limit [] = none
non_empty_digits limit (c ∷ s) = parse_digits limit 0 (c ∷ s)

-- An unsigned type with the largest value `limit`: `+` is read, `-` is no digit.
unfoldable pub parse_unsigned : ℕ → Bytes → Option ℕ
unfolding parse_digits
parse_unsigned limit [] = none
parse_unsigned limit (c ∷ s) =
    if c == b'+' then non_empty_digits limit s else parse_digits limit 0 (c ∷ s)

abbrev as_pos : Option ℕ → Option ℤ
as_pos none = none
as_pos (some n) = some (pos n)

abbrev as_neg : Option ℕ → Option ℤ
as_neg none = none
as_neg (some n) = some (sub_ℕ 0 n)

-- `i64`, whose digits are bounded by 2^63 - 1, or by 2^63 behind a `-`.
unfoldable pub parse_i64 : Bytes → Option ℤ
unfolding parse_digits
parse_i64 [] = none
parse_i64 (c ∷ s) =
    if c == b'-'
    then as_neg (non_empty_digits (2 ^ 63) s)
    else if c == b'+'
    then as_pos (non_empty_digits (2 ^ 63 - 1) s)
    else as_pos (parse_digits (2 ^ 63 - 1) 0 (c ∷ s))

abbrev pub u16_max : ℕ
u16_max = 2 ^ 16 - 1

abbrev pub u32_max : ℕ
u32_max = 2 ^ 32 - 1

-- `u64`, and `usize` on the 64-bit targets.
abbrev pub u64_max : ℕ
u64_max = 2 ^ 64 - 1

unfoldable pub show_onto : ℕ → ℕ → Bytes → Bytes
show_onto zero n acc = acc
show_onto (suc f) n acc = elim (ltb n 10) [
  | true ↦ (b'0' + n) ∷ acc
  | false ↦ show_onto f (n / 10) ((b'0' + n % 10) ∷ acc)
]

-- The fuel `n + 1` is more than the number of digits.
unfoldable pub show : ℕ → Bytes
unfolding show_onto
show n = show_onto (suc n) n []

unfoldable pub show_ℤ : ℤ → Bytes
unfolding show
show_ℤ (pos n) = show n
show_ℤ (negsuc n) = b'-' ∷ show (suc n)
