-- ===== src/Witness/Tokens.antt =====
-- The token theorems at a concrete token.
use open_rmbt_server.Common.{
  ℕ, ◌+◌, ◌-◌, ◌%◌, ◌^◌, ◌≤◌, ◌≡◌, refl, ap, ◌∙◌, ◌↔◌, ◌⊎◌, true, false, none, some, [], ◌∷◌, ◌++◌,
  arith, length, get_or,
}
use open_rmbt_server.Int.{pos, pos_part, ◌+ℤ◌, ◌-ℤ◌, ◌≤ℤ◌, ◌<ℤ◌}
use open_rmbt_server.Text.{Bytes}
use open_rmbt_server.Address.{mapped_ipv6}
use mathlib.Core.List.{flatten}
use open_rmbt_server.Token.Defs.{
  Clock, accepted, invalid_ip, V2Match, Checked, validate_token, hmac_sha256, match_v1, match_v2,
  extract_v2, time_window, reconstruct_time, check_ip_token, is_matching_ip,
}
use open_rmbt_server.Token.Window.{
  time_window-accepted_iff, time_window_outside, IsTooEarly, IsTooLate, reconstruct_time_nearest,
  reconstruct_time_roundtrip,
}
use open_rmbt_server.Token.V1.{IsV1, match_v1_iff}
use open_rmbt_server.Token.V2.{IssuedBy, BoundTo, FirstIssuer}
use open_rmbt_server.Token.Issue.{to_be_bytes, make_v1, make_v2, make_test_token, IssuedBy-make_v2}
use open_rmbt_server.Token.RoundTrip.{validate_token-issued, validate_token-other_address}
use open_rmbt_server.Token.Sound.{ByV1, ByV2}
use open_rmbt_server.Token.Rules.{Verdict}
use open_rmbt_server.Token.Verdict.{validate_token_follows}
use open_rmbt_server.Token.Exact.{validate_token_iff}
use open_rmbt_server.Token.IpCheck.{
  marker, forget_matching, check_ip_token_v2_ignored, is_matching_ip_iff,
}
use open_rmbt_server.Witness.Setup.{c, laws, uuid, uuid-Lacks, key, home, away, mac, encode, decode}

abbrev clock : Clock
clock = record { first = 5000; second = 5000 }

abbrev token : Bytes
token = make_test_token c key.key uuid (pos 5003) home

first_key : FirstIssuer c (make_v2 c key.key (pos 5003) home) (key ∷ []) key
first_key = record {
  before = [];
  after = [];
  keys_are = refl;
  issued = IssuedBy-make_v2 c laws key.key (pos 5003) home key refl;
  others = tt;
}

validate_token-issued_example :
    validate_token c token (key ∷ []) (some home) true clock ≡ time_window (pos 5003) 5000 key.label
validate_token-issued_example =
    validate_token-issued c laws uuid 5003 home key (key ∷ []) true clock home uuid-Lacks first_key
      refl (omega arith) (omega arith)

on_time : time_window (pos 5003) 5000 key.label ≡ accepted 3 key.label
unfolding time_window
on_time = refl

token-accepted : validate_token c token (key ∷ []) (some home) true clock ≡ accepted 3 key.label
token-accepted =
    validate_token-issued c laws uuid 5003 home key (key ∷ []) true clock home uuid-Lacks first_key
      refl (omega arith) (omega arith)
    ∙ on_time

validate_token_iff_example :
    (validate_token c token (key ∷ []) (some home) true clock ≡ accepted 3 key.label) ↔ (
      ((extract_v2 token ≡ none) × (true ≡ false) × ByV1 c token (key ∷ []) 5000 3 key.label)
      ⊎ ((b64 : Bytes) × (extract_v2 token ≡ some b64)
          × ByV2 c token (key ∷ []) b64 (some home) clock 3 key.label))
validate_token_iff_example = validate_token_iff c token (key ∷ []) (some home) true clock

not_bound : ¬ BoundTo c (make_v2 c key.key (pos 5003) home) (mapped_ipv6 away) key
unfolding make_v2 to_be_bytes hmac_sha256 mapped_ipv6 mac flatten
not_bound e = let first : ◌≡◌ {A = ℕ} 64 63 = ap (λ s. get_or s 0 0) e in absurd (omega arith)

validate_token-other_address_example :
    validate_token c token (key ∷ []) (some away) true clock ≡ invalid_ip
validate_token-other_address_example =
    validate_token-other_address c laws uuid 5003 home key (key ∷ []) true clock away uuid-Lacks
      first_key not_bound

reconstruct_time_nearest_example :
    (pos_part (reconstruct_time 7 (2 ^ 32 - 3) +ℤ pos (2 ^ 32)) % 2 ^ 32 ≡ 7)
    × (reconstruct_time 7 (2 ^ 32 - 3) ≤ℤ pos (2 ^ 32 - 3 + 2 ^ 31))
    × (pos (2 ^ 32 - 3) ≤ℤ reconstruct_time 7 (2 ^ 32 - 3) +ℤ pos (2 ^ 31))
reconstruct_time_nearest_example = reconstruct_time_nearest 7 (2 ^ 32 - 3) (omega arith)

reconstruct_time_roundtrip_example :
    reconstruct_time ((2 ^ 32 + 7) % 2 ^ 32) (2 ^ 32 - 3) ≡ pos (2 ^ 32 + 7)
reconstruct_time_roundtrip_example =
    reconstruct_time_roundtrip (2 ^ 32 + 7) (2 ^ 32 - 3) (omega arith) (omega arith)

time_window-accepted_iff_example :
    (time_window (pos 5003) 5000 key.label ≡ accepted 3 key.label) ↔ (
      (key.label ≡ key.label)
      × (pos 5000 ≤ℤ pos 5003 +ℤ pos 90)
      × (3 ≤ 20)
      × (3 ≡ pos_part (pos 5003 -ℤ pos 5000)))
time_window-accepted_iff_example = time_window-accepted_iff (pos 5003) 5000 3 key.label key.label

time_window_outside_example :
    (IsTooEarly (time_window (pos 5100) 5000 key.label) ↔ (pos (5000 + 20) <ℤ pos 5100))
    × (IsTooLate (time_window (pos 5100) 5000 key.label) ↔ (pos 5100 +ℤ pos 90 <ℤ pos 5000))
time_window_outside_example = time_window_outside (pos 5100) 5000 key.label

abbrev v1 : Bytes
v1 = make_v1 c key.key uuid (pos 5003)

match_v1_iff_example :
    (match_v1 c v1 (key ∷ []) ≡ Checked.ok (uuid, pos 5003, key))
    ↔ IsV1 c v1 (key ∷ []) uuid (pos 5003) key
match_v1_iff_example = match_v1_iff c v1 (key ∷ []) uuid (pos 5003) key

abbrev v2 : Bytes
v2 = make_v2 c key.key (pos 5003) home

validate_token_follows_example :
    (validate_token c token (key ∷ []) (some home) true clock ≡ accepted 3 key.label)
    ↔ Verdict c (key ∷ []) token (some home) true clock (accepted 3 key.label)
validate_token_follows_example =
    validate_token_follows c (key ∷ []) token (some home) true clock (accepted 3 key.label)

is_matching_ip_iff_example : (is_matching_ip c (some (encode v2)) key home ≡ true) ↔ (
    (bytes : Bytes) × (decode (encode v2) ≡ some bytes)
    × (length bytes ≡ 16)
    × IssuedBy c bytes key
    × BoundTo c bytes (mapped_ipv6 home) key)
is_matching_ip_iff_example = is_matching_ip_iff c (encode v2) key home

check_ip_token_v2_ignored_example :
    forget_matching (check_ip_token c (v1 ++ (marker ++ encode v2)) (key ∷ []) home 5000)
    ≡ forget_matching (check_ip_token c (v1 ++ (marker ++ [])) (key ∷ []) home 5000)
check_ip_token_v2_ignored_example =
    check_ip_token_v2_ignored c (key ∷ []) home 5000 v1 (encode v2) []

-- Both sides of that accept the token.
v1_accepted :
    forget_matching (check_ip_token c (v1 ++ (marker ++ [])) (key ∷ []) home 5000)
    ≡ Checked.ok (key, uuid)
unfolding check_ip_token make_v1 match_v1 open_rmbt_server.Token.Defs.split_ip_token
    open_rmbt_server.Text.show_ℤ encode mac open_rmbt_server.Token.Defs.window_check is_matching_ip
v1_accepted = refl
