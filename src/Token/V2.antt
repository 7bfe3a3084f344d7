-- ===== src/Token/V2.antt =====
-- v2 tokens: what `match_v2` and the key loop of `validate_v2` (src/protocol/token.rs) find.
use open_rmbt_server.Common.{
  ◌≡◌, refl, ap, ◌↔◌, ◌⊎◌, inl, inr, true, false, none, some, List, [], ◌∷◌, ◌++◌, arith,
  Bool-cases, take, drop, All,
}
use open_rmbt_server.Text.{Bytes, eq_bytes}
use open_rmbt_server.Config.Defs.{SecretKey}
use open_rmbt_server.Address.{IpAddr, mapped_ipv6}
use open_rmbt_server.Crypto.{Crypto}
use open_rmbt_server.Text.Search.{eq_bytes_iff}
use open_rmbt_server.Token.Defs.{
  TokenResult, invalid_ip, invalid_hmac, V2Match, Clock, hmac_sha256, match_v2, scan_keys,
  validate_v2_bytes, reconstruct_time, from_be_bytes, time_window,
}

module _ (c : Crypto) (bytes : Bytes) where
  -- The key issued the time field of the token.
  abbrev pub IssuedBy : SecretKey → Type 0
  IssuedBy key = take 8 (hmac_sha256 c key.key (take 4 bytes ∷ [])) ≡ take 8 (drop 4 bytes)

  -- The key bound the token to the address.
  abbrev pub BoundTo : Bytes → SecretKey → Type 0
  BoundTo ip16 key =
      take 4 (hmac_sha256 c key.key (take 4 bytes ∷ ip16 ∷ [])) ≡ take 4 (drop 12 bytes)

  -- `match_v2` says Ok exactly if both HMACs hold, IpMismatch exactly if only the one over the
  -- time does, and TimeMismatch exactly if that one does not hold.
  pub match_v2_iff :
      (ip16 : Bytes) (key : SecretKey)
      → ((match_v2 c bytes key ip16 ≡ V2Match.ok) ↔ (IssuedBy key × BoundTo ip16 key))
        × ((match_v2 c bytes key ip16 ≡ V2Match.ip_mismatch) ↔ (IssuedBy key × ¬ BoundTo ip16 key))
        × ((match_v2 c bytes key ip16 ≡ V2Match.time_mismatch) ↔ (¬ IssuedBy key))
  unfolding match_v2
  match_v2_iff ip16 key =
      let t =
        eq_bytes_iff (take 8 (hmac_sha256 c key.key (take 4 bytes ∷ []))) (take 8 (drop 4 bytes)) in
      let i =
        eq_bytes_iff (take 4 (hmac_sha256 c key.key (take 4 bytes ∷ ip16 ∷ [])))
          (take 4 (drop 12 bytes)) in
      (
        (λ h. ground (arith, t, i), λ h. ground (arith, t, i)),
        (λ h. (ground (arith, t, i), λ b. ground (arith, t, i)), λ h. ground (arith, t, i)),
        (λ h b. ground (arith, t, i), λ h. ground (arith, t, i)),
      )

  -- The first key that issued the token, with the keys before it.
  pub record FirstIssuer (keys : List SecretKey) (key : SecretKey) : Type 0 where
    pub before : List SecretKey
    pub after : List SecretKey
    pub keys_are : keys ≡ before ++ key ∷ after
    pub issued : IssuedBy key
    pub others : All (λ k. ¬ IssuedBy k) before

  first_issuer :
      (keys : List SecretKey)
      → ((key : SecretKey) × FirstIssuer keys key) ⊎ All (λ k. ¬ IssuedBy k) keys
  first_issuer [] = inr tt
  first_issuer (k ∷ ks) =
      elim (Bool-cases
        (eq_bytes (take 8 (hmac_sha256 c k.key (take 4 bytes ∷ []))) (take 8 (drop 4 bytes)))) [
          | inl e ↦ inl (
            k,
            record {
              before = [];
              after = ks;
              keys_are = refl;
              issued = (eq_bytes_iff _ _).0 e;
              others = tt;
            },
          )
          | inr e ↦
              let apart : ¬ IssuedBy k = λ h. ground (
                arith,
                (eq_bytes_iff (take 8 (hmac_sha256 c k.key (take 4 bytes ∷ [])))
                      (take 8 (drop 4 bytes))).1
                    h,
              ) in
              elim (first_issuer ks) [
                | inl (key, f) ↦ inl (
                  key,
                  record {
                    before = k ∷ f.before;
                    after = f.after;
                    keys_are = ap (◌∷◌ k) f.keys_are;
                    issued = f.issued;
                    others = (apart, f.others);
                  },
                )
                | inr none_of_them ↦ inr (apart, none_of_them)
              ]
        ]

  module _ (ip16 : Bytes) where
    -- With no issuer among the keys the loop ends with nothing.
    pub scan_keys-none :
        (keys : List SecretKey)
        → All (λ k. ¬ IssuedBy k) keys
        → scan_keys c bytes ip16 keys ≡ (none, false)
    unfolding scan_keys
    scan_keys-none [] h = refl
    scan_keys-none (k ∷ ks) h =
        rw ((match_v2_iff ip16 k).2.1 h.0, scan_keys) (scan_keys-none ks h.1)

    scan_keys-append :
        (before : List SecretKey) (key : SecretKey) (after : List SecretKey)
        → All (λ k. ¬ IssuedBy k) before
        → IssuedBy key
        → (BoundTo ip16 key
            → scan_keys c bytes ip16 (before ++ key ∷ after) ≡ (some key.label, false))
          × (¬ BoundTo ip16 key → scan_keys c bytes ip16 (before ++ key ∷ after) ≡ (none, true))
    unfolding scan_keys
    scan_keys-append [] key after h i = (
      λ b. rw ((match_v2_iff ip16 key).0.1 (i, b), scan_keys),
      λ b. rw ((match_v2_iff ip16 key).1.1 (i, b), scan_keys),
    )
    scan_keys-append (k ∷ ks) key after h i =
        let rest = scan_keys-append ks key after h.1 i in
        (
          λ b. rw ((match_v2_iff ip16 k).2.1 h.0, scan_keys) (rest.0 b),
          λ b. rw ((match_v2_iff ip16 k).2.1 h.0, scan_keys) (rest.1 b),
        )

    -- The loop stops at the first issuer, and its label is kept exactly if the address fits.
    pub scan_keys_first :
        (keys : List SecretKey) (key : SecretKey)
        → FirstIssuer keys key
        → (BoundTo ip16 key → scan_keys c bytes ip16 keys ≡ (some key.label, false))
          × (¬ BoundTo ip16 key → scan_keys c bytes ip16 keys ≡ (none, true))
    scan_keys_first keys key f =
        rw f.keys_are (scan_keys-append f.before key f.after f.others f.issued)

-- What the clock makes of the token's time field.
abbrev pub window_of : Bytes → Clock → Bytes → TokenResult
window_of bytes clock label =
    time_window (reconstruct_time (from_be_bytes bytes) clock.first) clock.second label

module _ (c : Crypto) (bytes : Bytes) (keys : List SecretKey) (ip : IpAddr) (clock : Clock) where
  -- The verdict on the 16 bytes of a v2 token from `ip` is one of three: the address does not fit
  -- the first issuer, no key issued it, or the time window decides under the first issuer's label.
  pub validate_v2_verdict :
      ((key : SecretKey) × FirstIssuer c bytes keys key
        × BoundTo c bytes (mapped_ipv6 ip) key
        × (validate_v2_bytes c bytes keys ip clock ≡ window_of bytes clock key.label))
      ⊎ ((key : SecretKey) × FirstIssuer c bytes keys key
          × (¬ BoundTo c bytes (mapped_ipv6 ip) key)
          × (validate_v2_bytes c bytes keys ip clock ≡ invalid_ip))
      ⊎ (All (λ k. ¬ IssuedBy c bytes k) keys
          × (validate_v2_bytes c bytes keys ip clock ≡ invalid_hmac))
  unfolding validate_v2_bytes
  validate_v2_verdict = elim (first_issuer c bytes keys) [
    | inr none_of_them ↦ inr (
        inr
          (none_of_them, ground (arith, scan_keys-none c bytes (mapped_ipv6 ip) keys none_of_them)))
    | inl (key, f) ↦
        let scan = scan_keys_first c bytes (mapped_ipv6 ip) keys key f in
        let mine = take 4 (hmac_sha256 c key.key (take 4 bytes ∷ mapped_ipv6 ip ∷ [])) in
        let given = take 4 (drop 12 bytes) in
        elim (Bool-cases (eq_bytes mine given)) [
          | inl e ↦
              let b = (eq_bytes_iff mine given).0 e in
              inl (key, f, b, rw (scan.0 b, validate_v2_bytes))
          | inr e ↦
              let b : ¬ BoundTo c bytes (mapped_ipv6 ip) key =
                λ h. ground (arith, (eq_bytes_iff mine given).1 h) in
              inr (inl (key, f, b, ground (arith, scan.1 b)))
        ]
  ]
