-- ===== src/Token/Defs.antt =====
-- The operations of src/protocol/token.rs. Logging is left out. A reading of the clock is an
-- argument, in the order of the readings.
use open_rmbt_server.Common.{
  ℕ, ◌+◌, ◌*◌, ◌/◌, ◌^◌, Bool, true, false, not, ◌||◌, Option, none, some, List, [], ◌∷◌, ◌++◌, ltb,
  ◌==◌, if◌then◌else◌, length, get_or, take, drop, is_empty, find,
}
use open_rmbt_server.Int.{ℤ, pos, pos_part, ◌+ℤ◌, ◌-ℤ◌, ltb_ℤ}
use open_rmbt_server.Text.{Bytes, codes, eq_bytes, split_once, splitn, parse_i64, show_ℤ}
use mathlib.Core.List.{flatten}
use open_rmbt_server.Address.{IpAddr, mapped_ipv6}
use open_rmbt_server.Config.Defs.{SecretKey, max_accept_early, max_accept_late}
use open_rmbt_server.Crypto.{Crypto}

-- `TokenResult`.
pub data TokenResult : Type 0 where
  accepted : ℕ → Bytes → TokenResult
  invalid_hmac : TokenResult
  invalid_ip : TokenResult
  too_early : Bytes → TokenResult
  too_late : Bytes → TokenResult
  parse_error : TokenResult
  v2_required : TokenResult

-- `Result<A, TokenResult>`.
pub data Checked {ℓ} (A : Type ℓ) : Type ℓ where
  ok : A → Checked A
  err : TokenResult → Checked A

infixl 5 ◌>>=◌ ◌>>◌
abbrev pub ◌>>=◌ {ℓ κ} : {A : Type ℓ} {B : Type κ} → Checked A → (A → Checked B) → Checked B
ok a >>= f = f a
err e >>= f = err e

abbrev pub ◌>>◌ {ℓ κ} : {A : Type ℓ} {B : Type κ} → Checked A → Checked B → Checked B
m >> k = m >>= λ _. k

-- What `now_secs` returns, each time that it is called: seconds since the epoch, below 2^63.
pub record Clock : Type 0 where
  pub first : ℕ
  pub second : ℕ

unfoldable pub extract_v2 : Bytes → Option Bytes
unfolding split_once
extract_v2 raw = elim (split_once (codes "#v2#") raw) [ none ↦ none | some (_, v2) ↦ some v2 ]

-- The early/late accept window; the texts go to the client of `/ip`.
unfoldable pub window_check : ℤ → ℕ → Checked ℤ
unfolding ◌-ℤ◌ show_ℤ
window_check start_time now =
    let seconds_early = start_time -ℤ pos now in
    let seconds_late = pos now -ℤ start_time in
    if ltb_ℤ (pos max_accept_early) seconds_early
    then err (
        too_early (
          codes "token not valid yet: client is "
          ++ show_ℤ seconds_early
          ++ codes "s early (max 20)"))
    else if ltb_ℤ (pos max_accept_late) seconds_late
    then err (
        too_late
          (codes "token expired: client is " ++ show_ℤ seconds_late ++ codes "s late (max 90)"))
    else ok seconds_early

-- What `time_window` does with the result of `window_check`.
abbrev pub admit : Checked ℤ → Bytes → TokenResult
admit (err rejected) label = rejected
admit (ok seconds_early) label =
    accepted (if ltb_ℤ (pos 0) seconds_early then pos_part seconds_early else 0) label

unfoldable pub time_window : ℤ → ℕ → Bytes → TokenResult
unfolding window_check
time_window start_time now label = admit (window_check start_time now) label

abbrev period : ℕ
period = 2 ^ 32

-- `now & !0xFFFF_FFFF` is `now` less its low 32 bits; `time_u32` fills those.
unfoldable pub reconstruct_time : ℕ → ℕ → ℤ
unfolding ◌-ℤ◌ ◌+ℤ◌
reconstruct_time time_u32 now =
    let t = pos (now / 2 ^ 32 * 2 ^ 32 + time_u32) in
    if ltb_ℤ (pos (period / 2)) (t -ℤ pos now)
    then t -ℤ pos period
    else if ltb_ℤ (pos (period / 2)) (pos now -ℤ t)
    then t +ℤ pos period
    else t

-- `u32::from_be_bytes` of the first four bytes.
unfoldable pub from_be_bytes : Bytes → ℕ
from_be_bytes b =
    get_or b 0 0 * 2 ^ 24 + get_or b 1 0 * 2 ^ 16 + get_or b 2 0 * 2 ^ 8 + get_or b 3 0

pub data V2Match : Type 0 where
  time_mismatch ip_mismatch ok : V2Match

pub record IpToken : Type 0 where
  pub key : SecretKey
  pub open_test_uuid : Bytes
  pub matching_ip : Bool

-- The token in its v1 part and what stands behind the marker.
unfoldable pub split_ip_token : Bytes → Bytes × Option Bytes
unfolding split_once
split_ip_token raw_token = elim (split_once (codes "_#v2#") raw_token) [
  | some (v1, v2) ↦ (v1, some v2)
  | none ↦ (raw_token, none)
]

module _ (c : Crypto) where
  unfoldable pub hmac_sha256 : Bytes → List Bytes → Bytes
  hmac_sha256 key parts = c.hmac_sha256 key (flatten parts)

  unfoldable pub hmac_sha1_b64 : Bytes → Bytes → Bytes
  hmac_sha1_b64 key msg = c.b64_encode (c.hmac_sha1 key msg)

  -- `keys.iter().find(...)` on the signed message.
  unfoldable pub find_v1_key : Bytes → Bytes → List SecretKey → Option SecretKey
  unfolding hmac_sha1_b64 eq_bytes
  find_v1_key message hmac_b64 keys =
      find (λ k. eq_bytes (hmac_sha1_b64 k.key message) hmac_b64) keys

  -- The part of `match_v1` behind the split.
  unfoldable pub match_v1_fields : List Bytes → List SecretKey → Checked (Bytes × ℤ × SecretKey)
  unfolding find_v1_key
  match_v1_fields (uuid ∷ ts_str ∷ hmac_b64 ∷ []) keys =
      if not (length uuid == 36) || is_empty ts_str || ltb 12 (length ts_str)
      then err parse_error
      else elim (parse_i64 ts_str) [
        | none ↦ err parse_error
        | some start_time ↦ elim (find_v1_key (uuid ++ b'_' ∷ ts_str) hmac_b64 keys) [
          | some key ↦ ok (uuid, start_time, key)
          | none ↦ err invalid_hmac
        ]
      ]
  match_v1_fields _ keys = err parse_error

  unfoldable pub match_v1 : Bytes → List SecretKey → Checked (Bytes × ℤ × SecretKey)
  unfolding splitn match_v1_fields parse_i64
  match_v1 raw_token keys = match_v1_fields (splitn 3 b'_' raw_token) keys

  unfoldable pub validate_v1 : Bytes → List SecretKey → ℕ → TokenResult
  validate_v1 raw_token keys now = elim (match_v1 raw_token keys) [
    | ok (_, start_time, key) ↦ time_window start_time now key.label
    | err rejected ↦ rejected
  ]

  unfoldable pub match_v2 : Bytes → SecretKey → Bytes → V2Match
  unfolding hmac_sha256 eq_bytes
  match_v2 bytes key ip16 =
      let time_bytes = take 4 bytes in
      let packet_hash = take 8 (drop 4 bytes) in
      let ip_hash = take 4 (drop 12 bytes) in
      if not (eq_bytes (take 8 (hmac_sha256 key.key (time_bytes ∷ []))) packet_hash)
      then V2Match.time_mismatch
      else if eq_bytes (take 4 (hmac_sha256 key.key (time_bytes ∷ ip16 ∷ []))) ip_hash
      then V2Match.ok
      else V2Match.ip_mismatch

  -- The loop over the keys: `matched_label` and `ip_mismatch` when it ends.
  unfoldable pub scan_keys : Bytes → Bytes → List SecretKey → Option Bytes × Bool
  scan_keys bytes ip16 [] = (none, false)
  scan_keys bytes ip16 (key ∷ keys) = elim (match_v2 bytes key ip16) [
    | V2Match.time_mismatch ↦ scan_keys bytes ip16 keys
    | V2Match.ip_mismatch ↦ (none, true)
    | V2Match.ok ↦ (some key.label, false)
  ]

  -- `validate_v2` behind the decoding and the source address.
  unfoldable pub validate_v2_bytes : Bytes → List SecretKey → IpAddr → Clock → TokenResult
  validate_v2_bytes bytes keys ip clock =
      let (matched_label, mismatch) = scan_keys bytes (mapped_ipv6 ip) keys in
      elim matched_label [
        | some label ↦
            time_window (reconstruct_time (from_be_bytes bytes) clock.first) clock.second label
        | none ↦ if mismatch then invalid_ip else invalid_hmac
      ]

  unfoldable pub validate_v2 : Bytes → List SecretKey → Option IpAddr → Clock → TokenResult
  validate_v2 raw keys source_ip clock = elim (c.b64_decode raw) [
    | none ↦ parse_error
    | some bytes ↦
        if length bytes == 16
        then elim source_ip [ some ip ↦ validate_v2_bytes bytes keys ip clock | none ↦ invalid_ip ]
        else parse_error
  ]

  unfoldable pub validate_token :
      Bytes → List SecretKey → Option IpAddr → Bool → Clock → TokenResult
  validate_token raw_token keys source_ip v2_only clock = elim (extract_v2 raw_token) [
    | some v2_b64 ↦ validate_v2 v2_b64 keys source_ip clock
    | none ↦ if v2_only then v2_required else validate_v1 raw_token keys clock.first
  ]

  -- `matching_ip` of `check_ip_token`.
  unfoldable pub is_matching_ip : Option Bytes → SecretKey → IpAddr → Bool
  is_matching_ip none key source_ip = false
  is_matching_ip (some b64) key source_ip = elim (c.b64_decode b64) [
    | none ↦ false
    | some bytes ↦
        if length bytes == 16
        then elim (match_v2 bytes key (mapped_ipv6 source_ip)) [ V2Match.ok ↦ true | _ ↦ false ]
        else false
  ]

  unfoldable pub check_ip_token : Bytes → List SecretKey → IpAddr → ℕ → Checked IpToken
  check_ip_token raw_token keys source_ip now = do
    let (v1, v2) = split_ip_token raw_token
    (uuid, start_time, key) ← match_v1 v1 keys
    window_check start_time now
    let matching_ip = is_matching_ip v2 key source_ip
    ok (record { key = key; open_test_uuid = uuid; matching_ip = matching_ip })
