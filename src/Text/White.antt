-- ===== src/Text/White.antt =====
-- `str::trim`: Unicode white space, read off the UTF-8 bytes.
use open_rmbt_server.Common.{
  ℕ, zero, suc, Bool, true, false, ◌||◌, ◌&&◌, [], ◌∷◌, reverse, ◌==◌, within, length, drop,
}
use open_rmbt_server.Text.Defs.{Bytes}

abbrev pub is_white : ℕ → Bool
is_white c = within 9 13 c || c == 32

-- U+0085 and U+00A0 in UTF-8, whose first byte is 0xc2.
abbrev pub is_white_two : ℕ → ℕ → Bool
is_white_two a b = a == 0xc2 && (b == 0x85 || b == 0xa0)

-- U+1680, U+2000 to U+200A, U+2028, U+2029, U+202F, U+205F and U+3000.
abbrev pub is_white_three : ℕ → ℕ → ℕ → Bool
is_white_three a b c =
    a == 0xe1 && b == 0x9a && c == 0x80
    || a == 0xe2 && b == 0x80 && (within 0x80 0x8a c || c == 0xa8 || c == 0xa9 || c == 0xaf)
    || a == 0xe2 && b == 0x81 && c == 0x9f
    || a == 0xe3 && b == 0x80 && c == 0x80

abbrev pub width : Bool → Bool → Bool → ℕ
width true _ _ = 1
width false true _ = 2
width false false true = 3
width false false false = 0

-- How many bytes a white-space character at the front takes; 0 if there is none.
unfoldable pub front_width : Bytes → ℕ
front_width [] = 0
front_width (a ∷ []) = width (is_white a) false false
front_width (a ∷ b ∷ []) = width (is_white a) (is_white_two a b) false
front_width (a ∷ b ∷ c ∷ _) = width (is_white a) (is_white_two a b) (is_white_three a b c)

-- The same at the end, on the bytes in reverse.
unfoldable pub back_width : Bytes → ℕ
back_width [] = 0
back_width (a ∷ []) = width (is_white a) false false
back_width (a ∷ b ∷ []) = width (is_white a) (is_white_two b a) false
back_width (a ∷ b ∷ c ∷ _) = width (is_white a) (is_white_two b a) (is_white_three c b a)

unfoldable pub drop_front : ℕ → Bytes → Bytes
drop_front zero s = s
drop_front (suc n) s = elim (front_width s) [ zero ↦ s | suc k ↦ drop_front n (drop (suc k) s) ]

unfoldable pub drop_back : ℕ → Bytes → Bytes
drop_back zero s = s
drop_back (suc n) s = elim (back_width s) [ zero ↦ s | suc k ↦ drop_back n (drop (suc k) s) ]

unfoldable pub trim_start : Bytes → Bytes
unfolding drop_front front_width
trim_start s = drop_front (length s) s

unfoldable pub trim_end : Bytes → Bytes
unfolding drop_back back_width
trim_end s = reverse (drop_back (length s) (reverse s))

unfoldable pub trim : Bytes → Bytes
unfolding trim_start trim_end
trim s = trim_end (trim_start s)
