-- ===== src/Token/Sound.antt =====
-- What `validate_token` and `check_ip_token` (src/protocol/token.rs) let through.
use open_rmbt_server.Common.{
  ℕ, ◌≡◌, refl, sym, ◌∙◌, ◌⊎◌, inl, inr, Bool, true, false, Option, none, some, List, arith,
  Option-cases, length,
}
use open_rmbt_server.Int.{ℤ}
use open_rmbt_server.Text.{Bytes}
use open_rmbt_server.Address.{IpAddr, mapped_ipv6}
use open_rmbt_server.Config.Defs.{SecretKey}
use open_rmbt_server.Crypto.{Crypto}
use open_rmbt_server.Token.Defs.{
  accepted, Checked, ok, err, Clock, extract_v2, match_v1, validate_v1, validate_v2,
  validate_v2_bytes, validate_token, time_window,
}
use open_rmbt_server.Token.V1.{IsV1, match_v1_iff, match_v1-err}
use open_rmbt_server.Token.V2.{BoundTo, FirstIssuer, window_of, validate_v2_verdict}

module _ (c : Crypto) (raw : Bytes) (keys : List SecretKey) where
  -- The v1 token stands for itself: the HMAC holds and the window gives the verdict.
  pub record ByV1 (now sleep : ℕ) (label : Bytes) : Type 0 where
    pub uuid : Bytes
    pub start : ℤ
    pub key : SecretKey
    pub v1 : IsV1 c raw keys uuid start key
    pub window : time_window start now key.label ≡ accepted sleep label

  -- Both HMACs of the v2 part hold under the first key that issued it.
  pub record ByV2 (b64 : Bytes) (source_ip : Option IpAddr) (clock : Clock) (sleep : ℕ)
      (label : Bytes) : Type 0 where
    pub bytes : Bytes
    pub ip : IpAddr
    pub key : SecretKey
    pub decoded : c.b64_decode b64 ≡ some bytes
    pub size : length bytes ≡ 16
    pub source : source_ip ≡ some ip
    pub issuer : FirstIssuer c bytes keys key
    pub bound : BoundTo c bytes (mapped_ipv6 ip) key
    pub window : window_of bytes clock key.label ≡ accepted sleep label

  validate_v1-ByV1 :
      {now sleep : ℕ} {label : Bytes}
      → validate_v1 c raw keys now ≡ accepted sleep label
      → ByV1 now sleep label
  validate_v1-ByV1 {now} {sleep} {label} h = go (match_v1 c raw keys) refl
    where
      go : (r : Checked (Bytes × ℤ × SecretKey)) → match_v1 c raw keys ≡ r → ByV1 now sleep label
      go (ok (uuid, start, key)) e = record {
        uuid = uuid;
        start = start;
        key = key;
        v1 = (match_v1_iff c raw keys uuid start key).0 e;
        window = unfold validate_v1 in ground arith;
      }
      go (err rejected) e = absurd (unfold validate_v1 in ground (arith, match_v1-err c raw keys e))

  validate_v2_bytes-ByV2 :
      {b64 bytes : Bytes} {ip : IpAddr} {clock : Clock} {sleep : ℕ} {label : Bytes}
      → c.b64_decode b64 ≡ some bytes
      → length bytes ≡ 16
      → validate_v2_bytes c bytes keys ip clock ≡ accepted sleep label
      → ByV2 b64 (some ip) clock sleep label
  validate_v2_bytes-ByV2 {b64} {bytes} {ip} {clock} d s h =
      elim (validate_v2_verdict c bytes keys ip clock) [
        | inl (key, f, b, e) ↦ record {
          bytes = bytes;
          ip = ip;
          key = key;
          decoded = d;
          size = s;
          source = refl;
          issuer = f;
          bound = b;
          window = sym e ∙ h;
        }
        | inr (inl (key, f, b, e)) ↦ absurd (cc (sym e ∙ h))
        | inr (inr (f, e)) ↦ absurd (cc (sym e ∙ h))
      ]

  validate_v2-ByV2 :
      {b64 : Bytes} (source_ip : Option IpAddr) {clock : Clock} {sleep : ℕ} {label : Bytes}
      → validate_v2 c b64 keys source_ip clock ≡ accepted sleep label
      → ByV2 b64 source_ip clock sleep label
  unfolding validate_v2
  validate_v2-ByV2 {b64} none h = absurd (ground arith)
  validate_v2-ByV2 {b64} (some ip) h = elim (Option-cases (c.b64_decode b64)) [
    | inl e ↦ absurd (ground arith)
    | inr (bytes, e) ↦ validate_v2_bytes-ByV2 e (ground arith) (ground arith)
  ]

  -- Every accepted token was accepted for a reason: without the v2 marker, and only if v1 tokens
  -- are allowed, the v1 HMAC and window hold; with it, the sender's address is known, the v2 part
  -- is 16 bytes, both its HMACs hold under the first key that issued it, and the window holds.
  -- The label is that key's.
  pub validate_token-accepted :
      (source_ip : Option IpAddr) (v2_only : Bool) (clock : Clock) {sleep : ℕ} {label : Bytes}
      → validate_token c raw keys source_ip v2_only clock ≡ accepted sleep label
      → ((extract_v2 raw ≡ none) × (v2_only ≡ false) × ByV1 clock.first sleep label)
        ⊎ ((b64 : Bytes) × (extract_v2 raw ≡ some b64) × ByV2 b64 source_ip clock sleep label)
  validate_token-accepted source_ip v2_only clock {sleep} {label} h =
      go v2_only (extract_v2 raw) refl h
    where
      go :
          (only : Bool) (marker : Option Bytes)
          → extract_v2 raw ≡ marker
          → validate_token c raw keys source_ip only clock ≡ accepted sleep label
          → ((extract_v2 raw ≡ none) × (only ≡ false) × ByV1 clock.first sleep label)
            ⊎ ((b64 : Bytes) × (extract_v2 raw ≡ some b64) × ByV2 b64 source_ip clock sleep label)
      go only (some b64) e k =
          inr (b64, e, validate_v2-ByV2 source_ip (unfold validate_token in ground arith))
      go true none e k = absurd (unfold validate_token in ground arith)
      go false none e k = inl (e, refl, validate_v1-ByV1 (unfold validate_token in ground arith))
