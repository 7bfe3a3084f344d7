-- ===== src/Token/Rules.antt =====
-- The rules by which `validate_token` (src/protocol/token.rs) decides.
use open_rmbt_server.Common.{ℕ, ◌≡◌, Bool, true, false, Option, none, some, List, length, All}
use open_rmbt_server.Int.{ℤ}
use open_rmbt_server.Text.{Bytes}
use open_rmbt_server.Address.{IpAddr, mapped_ipv6}
use open_rmbt_server.Config.Defs.{SecretKey}
use open_rmbt_server.Crypto.{Crypto}
use open_rmbt_server.Token.Defs.{
  TokenResult, parse_error, invalid_hmac, invalid_ip, v2_required, Clock, extract_v2, time_window,
}
use open_rmbt_server.Token.V1.{IsV1}
use open_rmbt_server.Token.V2.{IssuedBy, BoundTo, FirstIssuer, window_of}
use open_rmbt_server.Token.Shape.{IsShaped, Forged}

-- The v2 part is base64 of 16 bytes.
pub record Decoded (c : Crypto) (b64 bytes : Bytes) : Type 0 where
  pub decoded : c.b64_decode b64 ≡ some bytes
  pub size : length bytes ≡ 16

module _ (c : Crypto) (keys : List SecretKey) where
  -- The rules for a token without the v2 marker, where v1 tokens are allowed.
  pub data V1Verdict (raw : Bytes) (now : ℕ) : TokenResult → Type 0 where
    malformed : ¬ IsShaped raw → V1Verdict raw now parse_error
    forged : (s : IsShaped raw) → Forged c s keys → V1Verdict raw now invalid_hmac
    in_time :
        {uuid : Bytes} {start : ℤ} {key : SecretKey}
        → IsV1 c raw keys uuid start key
        → V1Verdict raw now (time_window start now key.label)

  -- The rules for what stands behind the marker.
  pub data V2Verdict (b64 : Bytes) (source_ip : Option IpAddr) (clock : Clock)
      : TokenResult → Type 0 where
    undecoded :
        ((bytes : Bytes) → ¬ Decoded c b64 bytes) → V2Verdict b64 source_ip clock parse_error
    no_address :
        {bytes : Bytes}
        → Decoded c b64 bytes
        → source_ip ≡ none
        → V2Verdict b64 source_ip clock invalid_ip
    no_issuer :
        {bytes : Bytes} {ip : IpAddr}
        → Decoded c b64 bytes
        → source_ip ≡ some ip
        → All (λ k. ¬ IssuedBy c bytes k) keys
        → V2Verdict b64 source_ip clock invalid_hmac
    other_address :
        {bytes : Bytes} {ip : IpAddr} {key : SecretKey}
        → Decoded c b64 bytes
        → source_ip ≡ some ip
        → FirstIssuer c bytes keys key
        → ¬ BoundTo c bytes (mapped_ipv6 ip) key
        → V2Verdict b64 source_ip clock invalid_ip
    bound :
        {bytes : Bytes} {ip : IpAddr} {key : SecretKey}
        → Decoded c b64 bytes
        → source_ip ≡ some ip
        → FirstIssuer c bytes keys key
        → BoundTo c bytes (mapped_ipv6 ip) key
        → V2Verdict b64 source_ip clock (window_of bytes clock key.label)

  pub data Verdict (raw : Bytes) (source_ip : Option IpAddr) (v2_only : Bool) (clock : Clock)
      : TokenResult → Type 0 where
    with_marker :
        {b64 : Bytes} {r : TokenResult}
        → extract_v2 raw ≡ some b64
        → V2Verdict b64 source_ip clock r
        → Verdict raw source_ip v2_only clock r
    no_marker :
        {r : TokenResult}
        → extract_v2 raw ≡ none
        → v2_only ≡ false
        → V1Verdict raw clock.first r
        → Verdict raw source_ip v2_only clock r
    marker_missing :
        extract_v2 raw ≡ none → v2_only ≡ true → Verdict raw source_ip v2_only clock v2_required
