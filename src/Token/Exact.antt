-- ===== src/Token/Exact.antt =====
-- Exactly which tokens `validate_token` (src/protocol/token.rs) accepts.
use open_rmbt_server.Common.{
  ℕ, ◌≡◌, ◌⊎◌, ◌↔◌, inl, inr, Bool, false, Option, none, some, List, length, ==_iff,
}
use open_rmbt_server.Text.{Bytes}
use open_rmbt_server.Address.{IpAddr, mapped_ipv6}
use open_rmbt_server.Config.Defs.{SecretKey}
use open_rmbt_server.Crypto.{Crypto}
use open_rmbt_server.Token.Defs.{
  accepted, Clock, extract_v2, validate_v1, validate_v2, validate_v2_bytes, validate_token,
}
use open_rmbt_server.Token.V1.{match_v1_iff}
use open_rmbt_server.Token.V2.{scan_keys_first}
use open_rmbt_server.Token.Sound.{ByV1, ByV2, validate_token-accepted}

module _ (c : Crypto) (raw : Bytes) (keys : List SecretKey) {sleep : ℕ} {label : Bytes} where
  ByV1-validate_v1 :
      {now : ℕ}
      → ByV1 c raw keys now sleep label
      → validate_v1 c raw keys now ≡ accepted sleep label
  unfolding validate_v1
  ByV1-validate_v1 h =
      rw ((match_v1_iff c raw keys h.uuid h.start h.key).1 h.v1, validate_v1) h.window

  ByV2-validate_v2 :
      {b64 : Bytes} {source_ip : Option IpAddr} {clock : Clock}
      → ByV2 c raw keys b64 source_ip clock sleep label
      → validate_v2 c b64 keys source_ip clock ≡ accepted sleep label
  unfolding validate_v2 validate_v2_bytes
  ByV2-validate_v2 {b64} {source_ip} {clock} h =
      rw (h.decoded, (==_iff (length h.bytes) 16).1 h.size, h.source, validate_v2) decided
    where
      decided : validate_v2_bytes c h.bytes keys h.ip clock ≡ accepted sleep label
      decided =
          rw
            (
              (scan_keys_first c h.bytes (mapped_ipv6 h.ip) keys h.key h.issuer).0 h.bound,
              validate_v2_bytes,
            )
            h.window

  -- validate_token accepts a token exactly in two cases. It has no v2 marker, v1 tokens are allowed,
  -- and it is a UUID of 36 bytes, a start time and the HMAC of the two under one of the keys, in the
  -- window. Or its v2 part is base64 of 16 bytes, the peer's address is known, both HMACs hold under
  -- the first key that issued it, and it is in the window. The label and the seconds to sleep are
  -- what the window gives for that key.
  pub validate_token_iff :
      (source_ip : Option IpAddr) (v2_only : Bool) (clock : Clock)
      → (validate_token c raw keys source_ip v2_only clock ≡ accepted sleep label) ↔ (
          ((extract_v2 raw ≡ none) × (v2_only ≡ false) × ByV1 c raw keys clock.first sleep label)
          ⊎ ((b64 : Bytes) × (extract_v2 raw ≡ some b64)
              × ByV2 c raw keys b64 source_ip clock sleep label))
  unfolding validate_token
  validate_token_iff source_ip v2_only clock =
      (validate_token-accepted c raw keys source_ip v2_only clock, accept)
    where
      accept :
          ((extract_v2 raw ≡ none) × (v2_only ≡ false) × ByV1 c raw keys clock.first sleep label)
            ⊎ ((b64 : Bytes) × (extract_v2 raw ≡ some b64)
                × ByV2 c raw keys b64 source_ip clock sleep label)
          → validate_token c raw keys source_ip v2_only clock ≡ accepted sleep label
      accept (inl (e, f, h)) = rw (e, f, validate_token) (ByV1-validate_v1 h)
      accept (inr (b64, e, h)) = rw (e, validate_token) (ByV2-validate_v2 h)
