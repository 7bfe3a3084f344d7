-- ===== src/Utf8.antt =====
-- `String::from_utf8` and `String::from_utf8_lossy` of std, as src/stream uses them.
use open_rmbt_server.Common.{
  ℕ, zero, suc, ◌≡◌, refl, Bool, true, false, not, ◌&&◌, ◌||◌, [], ◌∷◌, ◌++◌, arith, ltb, ◌==◌,
  if◌then◌else◌, within, length, get_or, take, drop, is_empty, take-append-drop,
}
use open_rmbt_server.Text.{Bytes}

-- Is `b` a continuation byte? (std reads 0 past the end, which is none.)
abbrev cont : Bytes → ℕ → Bool
cont s i = within 0x80 0xbf (get_or s i 0)

-- May the byte `b` follow `a` as the second of three, or of four?
second_of_three : ℕ → ℕ → Bool
second_of_three a b =
    a == 0xe0 && within 0xa0 0xbf b
    || within 0xe1 0xec a && within 0x80 0xbf b
    || a == 0xed && within 0x80 0x9f b
    || within 0xee 0xef a && within 0x80 0xbf b

second_of_four : ℕ → ℕ → Bool
second_of_four a b =
    a == 0xf0 && within 0x90 0xbf b
    || within 0xf1 0xf3 a && within 0x80 0xbf b
    || a == 0xf4 && within 0x80 0x8f b

-- For a text that begins with byte `a`: is its first sequence valid, and how many bytes does the
-- sequence, or the part that one replacement character stands for, take?
first_sequence : ℕ → Bytes → Bool × ℕ
first_sequence a s =
    if ltb a 0x80
    then (true, 1)
    else if within 0xc2 0xdf a
    then (if cont s 1 then (true, 2) else (false, 1))
    else if within 0xe0 0xef a
    then (if not (second_of_three a (get_or s 1 0))
        then (false, 1)
        else if cont s 2
        then (true, 3)
        else (false, 2))
    else if within 0xf0 0xf4 a
    then (if not (second_of_four a (get_or s 1 0))
        then (false, 1)
        else if not (cont s 2)
        then (false, 2)
        else if cont s 3
        then (true, 4)
        else (false, 3))
    else (false, 1)

-- The fuel is the number of bytes: every sequence takes at least one.
valid_fuel : ℕ → Bytes → Bool
valid_fuel zero s = is_empty s
valid_fuel (suc n) [] = true
valid_fuel (suc n) (a ∷ s) =
    let (valid, k) = first_sequence a (a ∷ s) in
    elim valid [ true ↦ valid_fuel n (drop k (a ∷ s)) | false ↦ false ]

unfoldable pub is_utf8 : Bytes → Bool
unfolding valid_fuel first_sequence second_of_three second_of_four
is_utf8 s = valid_fuel (length s) s

lossy_fuel : ℕ → Bytes → Bytes
lossy_fuel zero s = []
lossy_fuel (suc n) [] = []
lossy_fuel (suc n) (a ∷ s) =
    let (valid, k) = first_sequence a (a ∷ s) in
    (if valid then take k (a ∷ s) else 0xef ∷ 0xbf ∷ 0xbd ∷ []) ++ lossy_fuel n (drop k (a ∷ s))

unfoldable pub from_utf8_lossy : Bytes → Bytes
unfolding lossy_fuel first_sequence second_of_three second_of_four
from_utf8_lossy s = lossy_fuel (length s) s

lossy_fuel-valid : (n : ℕ) (s : Bytes) → valid_fuel n s ≡ true → lossy_fuel n s ≡ s
unfolding lossy_fuel valid_fuel
lossy_fuel-valid zero [] h = refl
lossy_fuel-valid zero (a ∷ s) h = ground arith
lossy_fuel-valid (suc n) [] h = refl
lossy_fuel-valid (suc n) (a ∷ s) h = ground (
  arith,
  lossy_fuel-valid n (drop (first_sequence a (a ∷ s)).1 (a ∷ s)),
  take-append-drop (first_sequence a (a ∷ s)).1 (a ∷ s),
)

-- Valid UTF-8 is taken over unchanged.
pub from_utf8_lossy-is_utf8 : (s : Bytes) → is_utf8 s ≡ true → from_utf8_lossy s ≡ s
unfolding from_utf8_lossy is_utf8
from_utf8_lossy-is_utf8 s h = lossy_fuel-valid (length s) s h
