-- ===== src/Token/IpCheck.antt =====
-- `check_ip_token` of src/protocol/token.rs: the v1 part decides, the v2 part is only reported.
use open_rmbt_server.Common.{
  ℕ, ◌+◌, ◌≡◌, refl, subst, ◌↔◌, ◌⊎◌, inl, inr, true, none, some, List, [], ◌∷◌, ◌++◌, arith,
  Option-cases, length,
}
use open_rmbt_server.Int.{ℤ, pos, ◌+ℤ◌, ◌≤ℤ◌}
use open_rmbt_server.Text.{Bytes, codes, strip_prefix, split_once}
use open_rmbt_server.Address.{IpAddr, mapped_ipv6}
use open_rmbt_server.Config.Defs.{SecretKey}
use open_rmbt_server.Crypto.{Crypto}
use open_rmbt_server.Token.Defs.{
  TokenResult, Checked, ok, err, IpToken, match_v1, window_check, is_matching_ip, split_ip_token,
  check_ip_token, V2Match, match_v2,
}
use open_rmbt_server.Token.V1.{IsV1, match_v1_iff}
use open_rmbt_server.Token.V2.{IssuedBy, BoundTo, match_v2_iff}
use open_rmbt_server.Token.Window.{window_check_iff}

abbrev pub marker : Bytes
marker = codes "_#v2#"

-- What a split finds in front of the first marker, with something behind it.
record SplitAlike (s t : Bytes) : Type 0 where
  pub front : Bytes
  pub behind : Bytes
  pub behind' : Bytes
  pub first : split_once marker s ≡ some (front, behind)
  pub second : split_once marker t ≡ some (front, behind')

step-SplitAlike :
    (x : ℕ) (s t : Bytes)
    → strip_prefix marker (x ∷ s) ≡ none
    → strip_prefix marker (x ∷ t) ≡ none
    → SplitAlike s t
    → SplitAlike (x ∷ s) (x ∷ t)
unfolding split_once
step-SplitAlike x s t e f h = record {
  front = x ∷ h.front;
  behind = h.behind;
  behind' = h.behind';
  first = ground (arith, h.first);
  second = ground (arith, h.second);
}

found-SplitAlike :
    (x : ℕ) (s t r r' : Bytes)
    → strip_prefix marker (x ∷ s) ≡ some r
    → strip_prefix marker (x ∷ t) ≡ some r'
    → SplitAlike (x ∷ s) (x ∷ t)
unfolding split_once
found-SplitAlike x s t r r' e f = record {
  front = [];
  behind = r;
  behind' = r';
  first = ground arith;
  second = ground arith;
}

split_once-SplitAlike : (a b b' : Bytes) → SplitAlike (a ++ (marker ++ b)) (a ++ (marker ++ b'))
unfolding strip_prefix
split_once-SplitAlike [] b b' = found-SplitAlike _ _ _ b b' refl refl
split_once-SplitAlike (x ∷ []) b b' =
    step-SplitAlike x _ _ (ground arith) (ground arith) (split_once-SplitAlike [] b b')
split_once-SplitAlike (x ∷ y ∷ []) b b' =
    step-SplitAlike x _ _ (ground arith) (ground arith) (split_once-SplitAlike (y ∷ []) b b')
split_once-SplitAlike (x ∷ y ∷ z ∷ []) b b' =
    step-SplitAlike x _ _ (ground arith) (ground arith) (split_once-SplitAlike (y ∷ z ∷ []) b b')
split_once-SplitAlike (x ∷ y ∷ z ∷ u ∷ []) b b' =
    step-SplitAlike x _ _ (ground arith) (ground arith)
      (split_once-SplitAlike (y ∷ z ∷ u ∷ []) b b')
split_once-SplitAlike (x ∷ y ∷ z ∷ u ∷ v ∷ a) b b' =
    elim (Option-cases (strip_prefix marker (x ∷ y ∷ z ∷ u ∷ v ∷ a))) [
      | inl e ↦
          step-SplitAlike x _ _ (ground arith) (ground arith)
            (split_once-SplitAlike (y ∷ z ∷ u ∷ v ∷ a) b b')
      | inr (r, e) ↦
          found-SplitAlike x _ _ (a ++ (marker ++ b)) (a ++ (marker ++ b')) (ground arith)
            (ground arith)
    ]

-- Behind the split both texts have the same v1 part, and a v2 part.
record PartsAlike (s t : Bytes) : Type 0 where
  pub front : Bytes
  pub v2 : Bytes
  pub v2' : Bytes
  pub first : split_ip_token s ≡ (front, some v2)
  pub second : split_ip_token t ≡ (front, some v2')

split_ip_token-PartsAlike : (a b b' : Bytes) → PartsAlike (a ++ (marker ++ b)) (a ++ (marker ++ b'))
unfolding split_ip_token
split_ip_token-PartsAlike a b b' =
    let h = split_once-SplitAlike a b b' in
    record {
      front = h.front;
      v2 = h.behind;
      v2' = h.behind';
      first = ground (arith, h.first);
      second = ground (arith, h.second);
    }

window_cases : (r : Checked ℤ) → ((e : TokenResult) × (r ≡ err e)) ⊎ ((early : ℤ) × (r ≡ ok early))
window_cases (err e) = inl (e, refl)
window_cases (ok early) = inr (early, refl)

-- The verdict without `matching_ip`.
abbrev pub forget_matching : Checked IpToken → Checked (SecretKey × Bytes)
forget_matching (ok t) = ok (t.key, t.open_test_uuid)
forget_matching (err rejected) = err rejected

module _ (c : Crypto) (keys : List SecretKey) (source_ip : IpAddr) (now : ℕ) where
  -- Whatever stands behind the marker, the same key and UUID are returned, or the same refusal:
  -- a v2 part neither rejects a token nor helps one.
  pub check_ip_token_v2_ignored :
      (v1 v2 v2' : Bytes)
      → forget_matching (check_ip_token c (v1 ++ (marker ++ v2)) keys source_ip now)
        ≡ forget_matching (check_ip_token c (v1 ++ (marker ++ v2')) keys source_ip now)
  unfolding check_ip_token
  check_ip_token_v2_ignored v1 v2 v2' =
      let h = split_ip_token-PartsAlike v1 v2 v2' in ground (arith, h.first, h.second)

  -- An accepted token has a v1 part with a valid HMAC under the key that is returned, within 20
  -- seconds before and 90 seconds after its start.
  pub check_ip_token-ok :
      (raw : Bytes) {t : IpToken}
      → check_ip_token c raw keys source_ip now ≡ ok t
      → (start : ℤ) × IsV1 c (split_ip_token raw).0 keys t.open_test_uuid start t.key
        × (start ≤ℤ pos (now + 20))
        × (pos now ≤ℤ start +ℤ pos 90)
        × (t.matching_ip ≡ is_matching_ip c (split_ip_token raw).1 t.key source_ip)
  check_ip_token-ok raw {t} h = go (match_v1 c v1 keys) refl
    where
      v1 : Bytes
      v1 = (split_ip_token raw).0

      go :
          (r : Checked (Bytes × ℤ × SecretKey))
          → match_v1 c v1 keys ≡ r
          → (start : ℤ) × IsV1 c v1 keys t.open_test_uuid start t.key
            × (start ≤ℤ pos (now + 20))
            × (pos now ≤ℤ start +ℤ pos 90)
            × (t.matching_ip ≡ is_matching_ip c (split_ip_token raw).1 t.key source_ip)
      go (err rejected) e = absurd (unfold check_ip_token in ground arith)
      go (ok (uuid, start, key)) e = elim (window_cases (window_check start now)) [
        | inl (r, w) ↦ absurd (unfold check_ip_token in ground arith)
        | inr (early, w) ↦
            let inside = (window_check_iff start now early).0 w in
            let same_key : key ≡ t.key = unfold check_ip_token in ground arith in
            let same_uuid : uuid ≡ t.open_test_uuid = unfold check_ip_token in ground arith in
            (
              start,
              subst (λ u. IsV1 c v1 keys u start t.key) same_uuid
                  (subst (λ k. IsV1 c v1 keys uuid start k) same_key
                    ((match_v1_iff c v1 keys uuid start key).0 e)),
              inside.1,
              inside.2,
              unfold check_ip_token in ground arith,
            )
      ]

-- `matching_ip` is true exactly if the v2 part is the base64 of 16 bytes whose two HMACs hold
-- under the key that validated the v1 part.
pub is_matching_ip_iff :
    (c : Crypto) (b64 : Bytes) (key : SecretKey) (source_ip : IpAddr)
    → (is_matching_ip c (some b64) key source_ip ≡ true) ↔ (
        (bytes : Bytes) × (c.b64_decode b64 ≡ some bytes)
        × (length bytes ≡ 16)
        × IssuedBy c bytes key
        × BoundTo c bytes (mapped_ipv6 source_ip) key)
unfolding is_matching_ip
is_matching_ip_iff c b64 key source_ip = (
  λ h. elim (Option-cases (c.b64_decode b64)) [
    | inl e ↦ absurd (ground arith)
    | inr (bytes, d) ↦
        let m : match_v2 c bytes key (mapped_ipv6 source_ip) ≡ V2Match.ok = ground arith in
        let (i, b) = (match_v2_iff c bytes (mapped_ipv6 source_ip) key).0.0 m in
        (bytes, d, ground arith, i, b)
  ],
  λ (bytes, d, s, i, b).
      ground (arith, (match_v2_iff c bytes (mapped_ipv6 source_ip) key).0.1 (i, b)),
)
