-- ===== src/Token/RoundTrip.antt =====
-- A token issued by `make_test_token` and checked by `validate_token` (src/protocol/token.rs).
use open_rmbt_server.Common.{
  ℕ, zero, suc, ◌+◌, ◌%◌, ◌^◌, ◌<◌, ◌≡◌, refl, sym, ◌∙◌, Bool, some, List, [], ◌∷◌, ◌++◌,
  append_assoc, arith, take, All, All-append,
}
use open_rmbt_server.Int.{pos}
use open_rmbt_server.Text.{Bytes, codes, show, show_ℤ}
use mathlib.Core.List.{flatten}
use open_rmbt_server.Address.{IpAddr, IsByte, mapped_ipv6}
use open_rmbt_server.Config.Defs.{SecretKey}
use open_rmbt_server.Crypto.{Crypto, CryptoLaws}
use open_rmbt_server.Text.Search.{Lacks, Lacks-append, split_once-Lacks}
use open_rmbt_server.Text.Decimal.{show-Digit}
use open_rmbt_server.Token.Defs.{
  invalid_ip, Clock, extract_v2, hmac_sha256, hmac_sha1_b64, from_be_bytes, time_window,
  validate_v2_bytes, validate_v2, validate_token,
}
use open_rmbt_server.Token.V2.{BoundTo, FirstIssuer, scan_keys_first}
use open_rmbt_server.Token.Window.{reconstruct_time_roundtrip}
use open_rmbt_server.Token.Issue.{
  to_be_bytes, make_v1, make_v2, make_test_token, make_v2_fields, BoundTo-make_v2, Digit-Lacks,
  from_be_bytes-to_be_bytes,
}

All-take {ℓ κ} : {A : Type ℓ} (P : A → Type κ) (n : ℕ) (xs : List A) → All P xs → All P (take n xs)
All-take P zero xs h = tt
All-take P (suc n) [] h = tt
All-take P (suc n) (x ∷ xs) h = (h.0, All-take P n xs h.1)

module _ (c : Crypto) (laws : CryptoLaws c) (key uuid : Bytes) (start : ℕ) (ip : IpAddr) where
  make_v2-IsByte : All IsByte (make_v2 c key (pos start) ip)
  unfolding make_v2 to_be_bytes hmac_sha256
  make_v2-IsByte =
      let tb = to_be_bytes (start % 2 ^ 32) in
      let packet = All-take IsByte 8 _ (laws.hmac_sha256_bytes key (flatten (tb ∷ []))) in
      let ip_part =
        All-take IsByte 4 _ (laws.hmac_sha256_bytes key (flatten (tb ∷ mapped_ipv6 ip ∷ []))) in
      (
        omega arith,
        (omega arith, (omega arith, (omega arith, All-append IsByte _ _ packet ip_part))),
      )

  from_be_bytes-make_v2 : from_be_bytes (make_v2 c key (pos start) ip) ≡ start % 2 ^ 32
  unfolding make_v2
  from_be_bytes-make_v2 = from_be_bytes-to_be_bytes (start % 2 ^ 32) _ (omega arith)

  abbrev token : Bytes
  token = make_test_token c key uuid (pos start) ip

  -- The token with its marker set free.
  token_parts :
      token
      ≡ (make_v1 c key uuid (pos start) ++ b'_' ∷ [])
        ++ (b'#' ∷ (codes "v2#" ++ c.b64_encode (make_v2 c key (pos start) ip)))
  unfolding make_test_token
  token_parts =
      append_assoc (make_v1 c key uuid (pos start)) _ _
      ∙ sym (append_assoc (make_v1 c key uuid (pos start)) _ _)

  make_v1-Lacks : Lacks b'#' uuid → Lacks b'#' (make_v1 c key uuid (pos start))
  unfolding make_v1 show_ℤ hmac_sha1_b64
  make_v1-Lacks h =
      let digits = Digit-Lacks b'#' (show start) (omega arith) (show-Digit start) in
      Lacks-append b'#' _ _ (Lacks-append b'#' uuid _ h (omega arith, digits))
        (omega arith, laws.encode-Lacks _)

  extract_v2-token :
      Lacks b'#' uuid → extract_v2 token ≡ some (c.b64_encode (make_v2 c key (pos start) ip))
  unfolding extract_v2
  extract_v2-token h = rw (
    token_parts,
    split_once-Lacks b'#' (codes "v2#") (make_v1 c key uuid (pos start) ++ b'_' ∷ []) _
        (Lacks-append b'#' _ _ (make_v1-Lacks h) (omega arith, tt)),
    extract_v2,
  )

  validate-token :
      (keys : List SecretKey) (source_ip : IpAddr) (v2_only : Bool) (clock : Clock)
      → Lacks b'#' uuid
      → validate_token c token keys (some source_ip) v2_only clock
        ≡ validate_v2_bytes c (make_v2 c key (pos start) ip) keys source_ip clock
  unfolding validate_token validate_v2
  validate-token keys source_ip v2_only clock h = ground (
    arith,
    extract_v2-token h,
    laws.decode-encode (make_v2 c key (pos start) ip) make_v2-IsByte,
    (make_v2_fields c laws key (pos start) ip).0,
  )

module _ (c : Crypto) (laws : CryptoLaws c) (uuid : Bytes) (start : ℕ) (ip : IpAddr)
    (key : SecretKey) (keys : List SecretKey) (v2_only : Bool) (clock : Clock) where
  -- A token that the control server issued with one of the server's keys, for the address that
  -- connects (as IPv6), is judged by its time alone, under the label of that key, also when only
  -- v2 is accepted: the time window decides on the start time that was issued. It is asked that
  -- no earlier key issued the same time field, that the UUID has no `#`, and that the server's
  -- clock is less than 2^31 seconds away from the start.
  pub validate_token-issued :
      (source_ip : IpAddr)
      → Lacks b'#' uuid
      → FirstIssuer c (make_v2 c key.key (pos start) ip) keys key
      → mapped_ipv6 source_ip ≡ mapped_ipv6 ip
      → start < 2 ^ 31 + clock.first
      → clock.first < 2 ^ 31 + start
      → validate_token c
          (make_test_token c key.key uuid (pos start) ip)
          keys
          (some source_ip)
          v2_only
          clock
        ≡ time_window (pos start) clock.second key.label
  unfolding validate_v2_bytes
  validate_token-issued source_ip h f same lo hi =
      let bound = BoundTo-make_v2 c laws key.key (pos start) ip key source_ip refl same in
      let scan =
        (scan_keys_first c (make_v2 c key.key (pos start) ip) (mapped_ipv6 source_ip) keys key f).0
          bound in
      validate-token c laws key.key uuid start ip keys source_ip v2_only clock h
      ∙ ground (
        arith,
        scan,
        from_be_bytes-make_v2 c laws key.key uuid start ip,
        reconstruct_time_roundtrip start clock.first (omega arith) (omega arith),
      )

  -- A token issued with one of the server's keys, the first that issued its time field, and with
  -- no `#` in its UUID, is refused as InvalidIp from an address to which the key's HMAC does not
  -- bind it.
  pub validate_token-other_address :
      (source_ip : IpAddr)
      → Lacks b'#' uuid
      → FirstIssuer c (make_v2 c key.key (pos start) ip) keys key
      → ¬ BoundTo c (make_v2 c key.key (pos start) ip) (mapped_ipv6 source_ip) key
      → validate_token c
          (make_test_token c key.key uuid (pos start) ip)
          keys
          (some source_ip)
          v2_only
          clock
        ≡ invalid_ip
  unfolding validate_v2_bytes
  validate_token-other_address source_ip h f apart =
      validate-token c laws key.key uuid start ip keys source_ip v2_only clock h
      ∙ ground (
        arith,
        (scan_keys_first c (make_v2 c key.key (pos start) ip) (mapped_ipv6 source_ip) keys key f).1
            apart,
      )
