-- ===== src/Token/Issue.antt =====
-- `make_test_token` of src/protocol/token.rs builds a token as the control server issues it.
-- The validator reads back what it wrote.
use open_rmbt_server.Common.{
  take_all, take-append_of, drop-append_of, ℕ, ◌-◌, ◌/◌, ◌%◌, ◌^◌, ◌<◌, ◌≡◌, refl, [], ◌∷◌, ◌++◌,
  arith, length, take, drop, length-append, length-take, All,
}
use open_rmbt_server.Int.{ℤ, pos, negsuc}
use open_rmbt_server.Text.{Bytes, codes, show_ℤ}
use mathlib.Core.List.{flatten}
use open_rmbt_server.Address.{IpAddr, mapped_ipv6}
use open_rmbt_server.Config.Defs.{SecretKey}
use open_rmbt_server.Crypto.{Crypto, CryptoLaws}
use open_rmbt_server.Text.Search.{Lacks}
use open_rmbt_server.Text.Decimal.{Digit}
use open_rmbt_server.Token.Defs.{hmac_sha256, hmac_sha1_b64, from_be_bytes}
use open_rmbt_server.Token.V2.{IssuedBy, BoundTo}

-- `u32::to_be_bytes`.
unfoldable pub to_be_bytes : ℕ → Bytes
to_be_bytes n = n / 2 ^ 24 % 256 ∷ n / 2 ^ 16 % 256 ∷ n / 2 ^ 8 % 256 ∷ n % 256 ∷ []

-- `start as u32`.
abbrev pub as_u32 : ℤ → ℕ
as_u32 (pos n) = n % 2 ^ 32
as_u32 (negsuc n) = 2 ^ 32 - 1 - n % 2 ^ 32

module _ (c : Crypto) where
  unfoldable pub make_v1 : Bytes → Bytes → ℤ → Bytes
  make_v1 key open_test_uuid start =
      let text = open_test_uuid ++ b'_' ∷ show_ℤ start in text ++ b'_' ∷ hmac_sha1_b64 c key text

  unfoldable pub make_v2 : Bytes → ℤ → IpAddr → Bytes
  make_v2 key start ip =
      let tb = to_be_bytes (as_u32 start) in
      tb
      ++ (take 8 (hmac_sha256 c key (tb ∷ []))
          ++ take 4 (hmac_sha256 c key (tb ∷ mapped_ipv6 ip ∷ [])))

  unfoldable pub make_test_token : Bytes → Bytes → ℤ → IpAddr → Bytes
  make_test_token key open_test_uuid start ip =
      make_v1 key open_test_uuid start ++ codes "_#v2#" ++ c.b64_encode (make_v2 key start ip)

pub from_be_bytes-to_be_bytes :
    (n : ℕ) (rest : Bytes) → n < 2 ^ 32 → from_be_bytes (to_be_bytes n ++ rest) ≡ n
unfolding from_be_bytes to_be_bytes
from_be_bytes-to_be_bytes n rest h = omega arith

pub Digit-Lacks : (x : ℕ) (s : Bytes) → x < b'0' → All Digit s → Lacks x s
Digit-Lacks x [] h a = tt
Digit-Lacks x (y ∷ s) h a = (omega arith, Digit-Lacks x s h a.1)

module _ (c : Crypto) (laws : CryptoLaws c) (key : Bytes) (start : ℤ) (ip : IpAddr) where
  abbrev pub tb : Bytes
  tb = to_be_bytes (as_u32 start)

  abbrev pub packet : Bytes
  packet = take 8 (hmac_sha256 c key (tb ∷ []))

  length-packet : length packet ≡ 8
  unfolding hmac_sha256
  length-packet = omega (
    arith,
    length-take 8 (hmac_sha256 c key (tb ∷ [])),
    laws.hmac_sha256_size key (flatten (tb ∷ [])),
  )

  abbrev pub ip_part : Bytes
  ip_part = take 4 (hmac_sha256 c key (tb ∷ mapped_ipv6 ip ∷ []))

  length-ip_part : length ip_part ≡ 4
  unfolding hmac_sha256
  length-ip_part = omega (
    arith,
    length-take 4 (hmac_sha256 c key (tb ∷ mapped_ipv6 ip ∷ [])),
    laws.hmac_sha256_size key (flatten (tb ∷ mapped_ipv6 ip ∷ [])),
  )

  -- The fields that the validator cuts out are those that were put in.
  pub make_v2_fields :
      (length (make_v2 c key start ip) ≡ 16)
      × (take 4 (make_v2 c key start ip) ≡ tb)
      × (take 8 (drop 4 (make_v2 c key start ip)) ≡ packet)
      × (take 4 (drop 12 (make_v2 c key start ip)) ≡ ip_part)
  unfolding make_v2 to_be_bytes
  make_v2_fields = (
    omega (arith, length-append packet ip_part, length-packet, length-ip_part),
    refl,
    take-append_of 8 packet ip_part length-packet,
    rw (drop-append_of 8 packet ip_part length-packet) (take_all 4 ip_part length-ip_part),
  )

  pub IssuedBy-make_v2 : (k : SecretKey) → k.key ≡ key → IssuedBy c (make_v2 c key start ip) k
  IssuedBy-make_v2 k e = rw (e, make_v2_fields.1, make_v2_fields.2) refl

  pub BoundTo-make_v2 :
      (k : SecretKey) (ip' : IpAddr)
      → k.key ≡ key
      → mapped_ipv6 ip' ≡ mapped_ipv6 ip
      → BoundTo c (make_v2 c key start ip) (mapped_ipv6 ip') k
  BoundTo-make_v2 k ip' e same = rw (e, same, make_v2_fields.1, make_v2_fields.3) refl
