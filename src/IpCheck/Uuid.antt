-- ===== src/IpCheck/Uuid.antt =====
-- `parse_uuid` of src/ip_check.rs against a printer of UUIDs.
use open_rmbt_server.Common.{
  ℕ, ◌+◌, ◌*◌, ◌/◌, ◌%◌, ◌<◌, ◌≡◌, refl, sym, ap, ◌∙◌, false, some, [], ◌∷◌, ◌++◌, append-nil,
  arith, ◌==◌, length, take, drop, All,
}
use open_rmbt_server.Text.{Bytes}
use open_rmbt_server.Address.{IsByte}
use open_rmbt_server.IpCheck.Defs.{hex_value, without_dashes, hex_pairs, parse_uuid}
use open_rmbt_server.Events.Escape.{hex_digit}

-- Two lowercase digits for each byte.
unfoldable pub hex_of : Bytes → Bytes
hex_of [] = []
hex_of (b ∷ s) = hex_digit (b / 16) ∷ hex_digit (b % 16) ∷ hex_of s

-- The canonical form: groups of 4, 2, 2, 2 and 6 bytes.
unfoldable pub show_uuid : Bytes → Bytes
unfolding hex_of
show_uuid u =
    hex_of (take 4 u)
    ++ (b'-'
        ∷ (hex_of (take 2 (drop 4 u))
            ++ (b'-'
                ∷ (hex_of (take 2 (drop 6 u))
                    ++ (b'-' ∷ (hex_of (take 2 (drop 8 u)) ++ (b'-' ∷ hex_of (drop 10 u))))))))

hex_value-hex_digit : (d : ℕ) → d < 16 → hex_value (hex_digit d) ≡ some d
unfolding hex_value
hex_value-hex_digit d h = ground arith

not_dash : (d : ℕ) → d < 16 → (hex_digit d == b'-') ≡ false
not_dash d h = ground arith

without_dashes-hex_of :
    (u rest : Bytes)
    → All IsByte u
    → without_dashes (hex_of u ++ rest) ≡ hex_of u ++ without_dashes rest
unfolding hex_of without_dashes
without_dashes-hex_of [] rest h = refl
without_dashes-hex_of (b ∷ u) rest (h, hs) =
    rw (not_dash (b / 16) (omega arith), not_dash (b % 16) (omega arith))
      (ap (λ s. hex_digit (b / 16) ∷ hex_digit (b % 16) ∷ s) (without_dashes-hex_of u rest hs))

hex_pairs-hex_of : (u : Bytes) → All IsByte u → hex_pairs (hex_of u) ≡ some u
unfolding hex_of hex_pairs
hex_pairs-hex_of [] h = refl
hex_pairs-hex_of (b ∷ u) (h, hs) =
    rw
      (
        hex_value-hex_digit (b / 16) (omega arith),
        hex_value-hex_digit (b % 16) (omega arith),
        hex_pairs-hex_of u hs,
      )
      (ap (λ x. some (x ∷ u)) value)
  where
    value : b / 16 * 16 + b % 16 ≡ b
    value = omega arith

last_group : (u : Bytes) → All IsByte u → without_dashes (hex_of u) ≡ hex_of u
unfolding without_dashes
last_group u h =
    ap without_dashes (sym (append-nil (hex_of u)))
    ∙ without_dashes-hex_of u [] h
    ∙ append-nil (hex_of u)

-- The dashes of the canonical form are dropped, and the digits stay.
without_dashes-groups :
    (a b c d e : Bytes)
    → All IsByte a
    → All IsByte b
    → All IsByte c
    → All IsByte d
    → All IsByte e
    → without_dashes (
        hex_of a
        ++ (b'-' ∷ (hex_of b ++ (b'-' ∷ (hex_of c ++ (b'-' ∷ (hex_of d ++ (b'-' ∷ hex_of e))))))))
      ≡ hex_of a ++ (hex_of b ++ (hex_of c ++ (hex_of d ++ hex_of e)))
unfolding without_dashes
without_dashes-groups a b c d e ha hb hc hd he =
    without_dashes-hex_of a _ ha
    ∙ ap (λ s. hex_of a ++ s)
        (without_dashes-hex_of b _ hb
          ∙ ap (λ s. hex_of b ++ s)
              (without_dashes-hex_of c _ hc
                ∙ ap (λ s. hex_of c ++ s)
                    (without_dashes-hex_of d _ hd ∙ ap (λ s. hex_of d ++ s) (last_group e he))))

-- The canonical form of sixteen bytes is parsed back to them.
pub parse_uuid-show_uuid :
    (u : Bytes) → length u ≡ 16 → All IsByte u → parse_uuid (show_uuid u) ≡ some u
unfolding parse_uuid show_uuid hex_of
parse_uuid-show_uuid (a ∷ b ∷ c ∷ d ∷ e ∷ f ∷ g ∷ h ∷ i ∷ j ∷ k ∷ l ∷ m ∷ n ∷ q ∷ p ∷ []) same
      (ha, (hb, (hc, (hd, (he, (hf, (hg, (hh, (hi, (hj, hs)))))))))) =
    let u = a ∷ b ∷ c ∷ d ∷ e ∷ f ∷ g ∷ h ∷ i ∷ j ∷ k ∷ l ∷ m ∷ n ∷ q ∷ p ∷ [] in
    let digits =
      without_dashes-groups (a ∷ b ∷ c ∷ d ∷ []) (e ∷ f ∷ []) (g ∷ h ∷ []) (i ∷ j ∷ [])
        (k ∷ l ∷ m ∷ n ∷ q ∷ p ∷ []) (ha, (hb, (hc, (hd, tt)))) (he, (hf, tt)) (hg, (hh, tt))
        (hi, (hj, tt)) hs in
    rw digits (hex_pairs-hex_of u (ha, (hb, (hc, (hd, (he, (hf, (hg, (hh, (hi, (hj, hs)))))))))))
parse_uuid-show_uuid _ same h = absurd (omega arith)
