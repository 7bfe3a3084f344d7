-- ===== src/Token/Verdict.antt =====
-- `validate_token` (src/protocol/token.rs) follows its rules.
use open_rmbt_server.Common.{
  ℕ, ◌≡◌, sym, ◌∙◌, subst, ◌⊎◌, ◌↔◌, inl, inr, Bool, false, Option, some, List, length, ==_iff,
  ◌==◌, Bool-cases, Option-cases, arith,
}
use open_rmbt_server.Text.{Bytes}
use open_rmbt_server.Address.{IpAddr, mapped_ipv6}
use open_rmbt_server.Config.Defs.{SecretKey}
use open_rmbt_server.Crypto.{Crypto}
use open_rmbt_server.Token.Defs.{
  TokenResult, parse_error, Clock, extract_v2, validate_v1, validate_v2, validate_v2_bytes,
  validate_token,
}
use open_rmbt_server.Token.V1.{match_v1_iff}
use open_rmbt_server.Token.V2.{scan_keys_first, scan_keys-none, validate_v2_verdict}
use open_rmbt_server.Token.Shape.{match_v1_verdict, Forged-match_v1, unshaped-match_v1}
use open_rmbt_server.Token.Rules.{
  Decoded, V1Verdict, malformed, forged, in_time, V2Verdict, undecoded, no_address, no_issuer,
  other_address, bound, Verdict, with_marker, no_marker, marker_missing,
}

module _ (c : Crypto) (keys : List SecretKey) where
  V1Verdict-unique :
      {raw : Bytes} {now : ℕ} {r : TokenResult}
      → V1Verdict c keys raw now r
      → validate_v1 c raw keys now ≡ r
  unfolding validate_v1
  V1Verdict-unique {raw} (malformed h) = rw (unshaped-match_v1 c raw keys h, validate_v1)
  V1Verdict-unique (forged s h) = rw (Forged-match_v1 c keys s h, validate_v1)
  V1Verdict-unique {raw} (in_time {uuid} {start} {key} h) =
      rw ((match_v1_iff c raw keys uuid start key).1 h, validate_v1)

  validate_v1-V1Verdict :
      (raw : Bytes) (now : ℕ) → V1Verdict c keys raw now (validate_v1 c raw keys now)
  validate_v1-V1Verdict raw now = elim (match_v1_verdict c raw keys) [
    | inl (uuid, start, key, e) ↦ by_rule (in_time ((match_v1_iff c raw keys uuid start key).0 e))
    | inr (inl (s, h)) ↦ by_rule (forged s h)
    | inr (inr h) ↦ by_rule (malformed h)
  ]
    where
      by_rule :
          {r : TokenResult}
          → V1Verdict c keys raw now r
          → V1Verdict c keys raw now (validate_v1 c raw keys now)
      by_rule v = subst (V1Verdict c keys raw now) (sym (V1Verdict-unique v)) v

  module _ (b64 : Bytes) (source_ip : Option IpAddr) (clock : Clock) where
    Decoded-validate_v2 :
        {bytes : Bytes} {ip : IpAddr}
        → Decoded c b64 bytes
        → source_ip ≡ some ip
        → validate_v2 c b64 keys source_ip clock ≡ validate_v2_bytes c bytes keys ip clock
    unfolding validate_v2
    Decoded-validate_v2 {bytes} d e =
        rw (d.decoded, (==_iff (length bytes) 16).1 d.size, e, validate_v2)

    -- Either the v2 part decodes, or it is refused.
    Decoded-or_refused :
        ((bytes : Bytes) × Decoded c b64 bytes)
        ⊎ (((bytes : Bytes) → ¬ Decoded c b64 bytes)
            × (validate_v2 c b64 keys source_ip clock ≡ parse_error))
    unfolding validate_v2
    Decoded-or_refused = elim (Option-cases (c.b64_decode b64)) [
      | inl e ↦ inr (λ bytes d. cc (sym e ∙ d.decoded), ground arith)
      | inr (bytes, e) ↦ elim (Bool-cases (length bytes == 16)) [
        | inl f ↦ inl (bytes, record { decoded = e; size = (==_iff (length bytes) 16).0 f })
        | inr f ↦ inr (other_size bytes e f, ground arith)
      ]
    ]
      where
        other_size :
            (bytes : Bytes)
            → c.b64_decode b64 ≡ some bytes
            → (length bytes == 16) ≡ false
            → (bytes' : Bytes) → ¬ Decoded c b64 bytes'
        other_size bytes e f bytes' d =
            let same : bytes ≡ bytes' = cc (sym e ∙ d.decoded) in
            absurd (cc (f, (==_iff (length bytes) 16).1 (rw same d.size)))

    V2Verdict-unique :
        {r : TokenResult}
        → V2Verdict c keys b64 source_ip clock r
        → validate_v2 c b64 keys source_ip clock ≡ r
    V2Verdict-unique (undecoded h) = elim Decoded-or_refused [
      | inl (bytes, d) ↦ absurd (h bytes d)
      | inr (_, e) ↦ e
    ]
    V2Verdict-unique (no_address {bytes} d e) =
        unfold validate_v2 in rw (d.decoded, (==_iff (length bytes) 16).1 d.size, e, validate_v2)
    V2Verdict-unique (no_issuer {bytes} {ip} d e h) =
        Decoded-validate_v2 d e
        ∙ unfold validate_v2_bytes in ground (arith, scan_keys-none c bytes (mapped_ipv6 ip) keys h)
    V2Verdict-unique (other_address {bytes} {ip} {key} d e f h) =
        Decoded-validate_v2 d e
        ∙ unfold validate_v2_bytes in
          ground (arith, (scan_keys_first c bytes (mapped_ipv6 ip) keys key f).1 h)
    V2Verdict-unique (bound {bytes} {ip} {key} d e f h) =
        Decoded-validate_v2 d e
        ∙ unfold validate_v2_bytes in
          rw ((scan_keys_first c bytes (mapped_ipv6 ip) keys key f).0 h, validate_v2_bytes)

    by_v2_rule :
        {r : TokenResult}
        → V2Verdict c keys b64 source_ip clock r
        → V2Verdict c keys b64 source_ip clock (validate_v2 c b64 keys source_ip clock)
    by_v2_rule v = subst (V2Verdict c keys b64 source_ip clock) (sym (V2Verdict-unique v)) v

    validate_v2-V2Verdict :
        V2Verdict c keys b64 source_ip clock (validate_v2 c b64 keys source_ip clock)
    validate_v2-V2Verdict = elim Decoded-or_refused [
      | inr (h, _) ↦ by_v2_rule (undecoded h)
      | inl (bytes, d) ↦ elim (Option-cases source_ip) [
        | inl e ↦ by_v2_rule (no_address d e)
        | inr (ip, e) ↦ elim (validate_v2_verdict c bytes keys ip clock) [
          | inl (key, f, h, _) ↦ by_v2_rule (bound d e f h)
          | inr (inl (key, f, h, _)) ↦ by_v2_rule (other_address d e f h)
          | inr (inr (h, _)) ↦ by_v2_rule (no_issuer d e h)
        ]
      ]
    ]

  module _ (raw : Bytes) (source_ip : Option IpAddr) (v2_only : Bool) (clock : Clock) where
    Verdict-unique :
        {r : TokenResult}
        → Verdict c keys raw source_ip v2_only clock r
        → validate_token c raw keys source_ip v2_only clock ≡ r
    unfolding validate_token
    Verdict-unique (with_marker {b64} e v) =
        rw (e, validate_token) (V2Verdict-unique b64 source_ip clock v)
    Verdict-unique (no_marker e f v) = rw (e, f, validate_token) (V1Verdict-unique v)
    Verdict-unique (marker_missing e f) = rw (e, f, validate_token)

    validate_token-Verdict :
        Verdict c keys raw source_ip v2_only clock
          (validate_token c raw keys source_ip v2_only clock)
    validate_token-Verdict = elim (Option-cases (extract_v2 raw)) [
      | inr (b64, e) ↦ by_rule (with_marker e (validate_v2-V2Verdict b64 source_ip clock))
      | inl e ↦ elim (Bool-cases v2_only) [
        | inl f ↦ by_rule (marker_missing e f)
        | inr f ↦ by_rule (no_marker e f (validate_v1-V1Verdict raw clock.first))
      ]
    ]
      where
        by_rule :
            {r : TokenResult}
            → Verdict c keys raw source_ip v2_only clock r
            → Verdict c keys raw source_ip v2_only clock
                (validate_token c raw keys source_ip v2_only clock)
        by_rule v = subst (Verdict c keys raw source_ip v2_only clock) (sym (Verdict-unique v)) v

    -- validate_token gives a result exactly if the rules give it. Without the v2 marker: v2_required
    -- if v1 tokens are not allowed, parse_error if the token is not of the v1 form, invalid_hmac if
    -- no key has its HMAC, and else what the window gives for the first key that has. With the
    -- marker: parse_error if what is behind it is not base64 of 16 bytes, invalid_ip without an
    -- address, invalid_hmac if no key issued it, invalid_ip if it is not bound to the address under
    -- the first key that issued it, and else what the window gives for that key.
    pub validate_token_follows :
        (r : TokenResult)
        → (validate_token c raw keys source_ip v2_only clock ≡ r)
          ↔ Verdict c keys raw source_ip v2_only clock r
    validate_token_follows r = (
      λ e. subst (Verdict c keys raw source_ip v2_only clock) e validate_token-Verdict,
      Verdict-unique,
    )
