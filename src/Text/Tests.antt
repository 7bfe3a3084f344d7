-- ===== src/Text/Tests.antt =====
-- The text operations on concrete inputs.
use open_rmbt_server.Common.{none, some, [], ◌∷◌, ◌≡◌, refl, ◌-◌, ◌^◌}
use open_rmbt_server.Int.{pos, negsuc}
use open_rmbt_server.Text.Defs.{codes, split_once, splitn, split, split_crlf, lines}
use open_rmbt_server.Text.White.{trim}
use open_rmbt_server.Text.Number.{parse_unsigned, parse_i64, u64_max, show_ℤ}

splits :
    (split_once (codes "#v2#") (codes "a_#v2#b#v2#c") ≡ some (codes "a_", codes "b#v2#c"))
    × (splitn 3 b' ' (codes "PUT 1 2 3") ≡ codes "PUT" ∷ codes "1" ∷ codes "2 3" ∷ [])
    × (split b';' (codes "a;;b") ≡ codes "a" ∷ [] ∷ codes "b" ∷ [])
    × (split_crlf (codes "GET\r\nA: b\r\n\r\n") ≡ codes "GET" ∷ codes "A: b" ∷ [] ∷ [] ∷ [])
    × (lines (codes "a\r\n\nb\r") ≡ codes "a" ∷ [] ∷ codes "b\r" ∷ [])
unfolding split_once splitn split split_crlf lines
splits = (refl, refl, refl, refl, refl)

-- A no-break space is trimmed too.
trims : trim (0xc2 ∷ 0xa0 ∷ codes " a b\t\r\n") ≡ codes "a b"
unfolding trim
trims = refl

numbers :
    (parse_unsigned u64_max (codes "+18446744073709551615") ≡ some (2 ^ 64 - 1))
    × (parse_unsigned u64_max (codes "18446744073709551616") ≡ none)
    × (parse_unsigned u64_max (codes "-1") ≡ none)
    × (parse_i64 (codes "-9223372036854775808") ≡ some (negsuc (2 ^ 63 - 1)))
    × (parse_i64 (codes "1700000000") ≡ some (pos 1700000000))
    × (show_ℤ (negsuc 119) ≡ codes "-120")
unfolding parse_unsigned parse_i64 show_ℤ
numbers = (refl, refl, refl, refl, refl, refl)
