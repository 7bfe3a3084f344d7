-- ===== src/Token/V1.antt =====
-- v1 tokens: what `match_v1` of src/protocol/token.rs accepts.
use open_rmbt_server.Common.{
  find-eq-some, find-append, ◌≤◌, ◌≡◌, refl, subst, ◌≢◌, ◌↔◌, ◌⊎◌, inl, inr, false, some, List, [],
  ◌∷◌, ◌++◌, arith, Option-cases, length, is_empty, All,
}
use open_rmbt_server.Int.{ℤ}
use open_rmbt_server.Text.{Bytes, eq_bytes, split_once, splitn, split, parse_i64}
use open_rmbt_server.Config.Defs.{SecretKey}
use open_rmbt_server.Crypto.{Crypto}
use open_rmbt_server.Text.Search.{
  eq_bytes_iff, split_once-eq-some, split_once-char, split_once-Lacks_first, Lacks,
}
use open_rmbt_server.Token.Defs.{
  TokenResult, ok, err, parse_error, invalid_hmac, hmac_sha1_b64, find_v1_key, match_v1_fields,
  match_v1,
}

-- `splitn(3, '_')` gives three fields only if two underscores part them, the first two of the text.
pub splitn-three :
    (raw a b r : Bytes)
    → splitn 3 b'_' raw ≡ a ∷ b ∷ r ∷ []
    → (raw ≡ a ++ b'_' ∷ (b ++ b'_' ∷ r)) × Lacks b'_' a × Lacks b'_' b
unfolding splitn
splitn-three raw a b r h = elim (Option-cases (split_once (b'_' ∷ []) raw)) [
  | inl e ↦ ground arith
  | inr ((a', rest), e) ↦ elim (Option-cases (split_once (b'_' ∷ []) rest)) [
    | inl f ↦ ground arith
    | inr ((b', r'), f) ↦
        let ea : a' ≡ a = ground arith in
        let eb : b' ≡ b = ground arith in
        (
          ground (
            arith,
            split_once-eq-some (b'_' ∷ []) raw a' rest e,
            split_once-eq-some (b'_' ∷ []) rest b' r' f,
          ),
          subst (Lacks b'_') ea (split_once-Lacks_first b'_' raw a' rest e),
          subst (Lacks b'_') eb (split_once-Lacks_first b'_' rest b' r' f),
        )
  ]
]

pub splitn-of_three :
    (a b r : Bytes)
    → Lacks b'_' a
    → Lacks b'_' b
    → splitn 3 b'_' (a ++ b'_' ∷ (b ++ b'_' ∷ r)) ≡ a ∷ b ∷ r ∷ []
unfolding splitn
splitn-of_three a b r ha hb =
    ground (arith, split_once-char b'_' a (b ++ b'_' ∷ r) ha, split_once-char b'_' b r hb)

-- What a v1 token that is accepted looks like: the key is the first of `keys` whose HMAC over
-- "uuid_timestamp" is the one in the token.
pub record IsV1 (c : Crypto) (raw : Bytes) (keys : List SecretKey) (uuid : Bytes) (start : ℤ)
    (key : SecretKey) : Type 0 where
  pub ts_str : Bytes
  pub before : List SecretKey
  pub after : List SecretKey
  pub raw_is :
      raw ≡ uuid ++ b'_' ∷ (ts_str ++ b'_' ∷ hmac_sha1_b64 c key.key (uuid ++ b'_' ∷ ts_str))
  pub uuid_Lacks : Lacks b'_' uuid
  pub ts_Lacks : Lacks b'_' ts_str
  pub uuid_size : length uuid ≡ 36
  pub ts_size : length ts_str ≤ 12
  pub ts_value : parse_i64 ts_str ≡ some start
  pub keys_are : keys ≡ before ++ key ∷ after
  pub first :
      All
        (λ k.
          hmac_sha1_b64 c k.key (uuid ++ b'_' ∷ ts_str)
          ≢ hmac_sha1_b64 c key.key (uuid ++ b'_' ∷ ts_str))
        before

pub parse_i64-is_empty : (s : Bytes) {v : ℤ} → parse_i64 s ≡ some v → is_empty s ≡ false
unfolding parse_i64
parse_i64-is_empty [] h = ground arith
parse_i64-is_empty (x ∷ s) h = refl

module _ (c : Crypto) where
  found_v1_key :
      (message mac : Bytes) (keys : List SecretKey) (key : SecretKey)
      → find_v1_key c message mac keys ≡ some key
      → (before : List SecretKey) × (after : List SecretKey) × (keys ≡ before ++ key ∷ after)
        × (hmac_sha1_b64 c key.key message ≡ mac)
        × All (λ k. hmac_sha1_b64 c k.key message ≢ hmac_sha1_b64 c key.key message) before
  unfolding find_v1_key
  found_v1_key message mac keys key h =
      let (before, after, split, holds, others) = find-eq-some _ keys key h in
      let same = (eq_bytes_iff (hmac_sha1_b64 c key.key message) mac).0 holds in
      (before, after, split, same, rw same (others_differ before others))
    where
      others_differ :
          (ks : List SecretKey)
          → All (λ k. eq_bytes (hmac_sha1_b64 c k.key message) mac ≡ false) ks
          → All (λ k. hmac_sha1_b64 c k.key message ≢ mac) ks
      others_differ [] a = tt
      others_differ (k ∷ ks) a = (
        λ e. ground (arith, eq_bytes_iff (hmac_sha1_b64 c k.key message) mac),
        others_differ ks a.1,
      )

  fields-ok :
      (raw : Bytes) (keys : List SecretKey) (fs : List Bytes) (uuid : Bytes) (start : ℤ)
      (key : SecretKey)
      → splitn 3 b'_' raw ≡ fs
      → match_v1_fields c fs keys ≡ ok (uuid, start, key)
      → IsV1 c raw keys uuid start key
  unfolding match_v1_fields
  fields-ok raw keys (u ∷ t ∷ m ∷ []) uuid start key e h =
      let found : find_v1_key c (uuid ++ b'_' ∷ t) m keys ≡ some key = ground arith in
      let parts = splitn-three raw u t m e in
      let same_uuid : u ≡ uuid = ground arith in
      let (before, after, split, holds, others) =
        found_v1_key (uuid ++ b'_' ∷ t) m keys key found in
      record {
        ts_str = t;
        before = before;
        after = after;
        raw_is = ground (arith, parts.0);
        uuid_Lacks = subst (Lacks b'_') same_uuid parts.1;
        ts_Lacks = parts.2;
        uuid_size = ground arith;
        ts_size = ground arith;
        ts_value = ground arith;
        keys_are = split;
        first = others;
      }
  fields-ok raw keys [] uuid start key e h = ground arith
  fields-ok raw keys (a ∷ []) uuid start key e h = ground arith
  fields-ok raw keys (a ∷ b ∷ []) uuid start key e h = ground arith
  fields-ok raw keys (a ∷ b ∷ d ∷ f ∷ fs) uuid start key e h = ground arith

  same_v1_key :
      (message : Bytes) (before after : List SecretKey) (key : SecretKey)
      → All (λ k. hmac_sha1_b64 c k.key message ≢ hmac_sha1_b64 c key.key message) before
      → find_v1_key c message (hmac_sha1_b64 c key.key message) (before ++ key ∷ after) ≡ some key
  unfolding find_v1_key
  same_v1_key message before after key others =
      find-append _ before after key (no_match before others) ((eq_bytes_iff mac mac).1 refl)
    where
      mac : Bytes
      mac = hmac_sha1_b64 c key.key message

      no_match :
          (ks : List SecretKey)
          → All (λ k. hmac_sha1_b64 c k.key message ≢ mac) ks
          → All (λ k. eq_bytes (hmac_sha1_b64 c k.key message) mac ≡ false) ks
      no_match [] a = tt
      no_match (k ∷ ks) a =
          (ground (arith, a.0, eq_bytes_iff (hmac_sha1_b64 c k.key message) mac), no_match ks a.1)

  match_v1_fields-IsV1 :
      (uuid ts : Bytes) (start : ℤ) (key : SecretKey) (keys : List SecretKey)
      → length uuid ≡ 36
      → length ts ≤ 12
      → parse_i64 ts ≡ some start
      → find_v1_key c (uuid ++ b'_' ∷ ts) (hmac_sha1_b64 c key.key (uuid ++ b'_' ∷ ts)) keys
        ≡ some key
      → match_v1_fields c (uuid ∷ ts ∷ hmac_sha1_b64 c key.key (uuid ++ b'_' ∷ ts) ∷ []) keys
        ≡ ok (uuid, start, key)
  unfolding match_v1_fields
  match_v1_fields-IsV1 uuid ts start key keys s t v f = ground (arith, parse_i64-is_empty ts v)

  IsV1-match_v1 :
      (raw : Bytes) (keys : List SecretKey) {uuid : Bytes} {start : ℤ} {key : SecretKey}
      → IsV1 c raw keys uuid start key
      → match_v1 c raw keys ≡ ok (uuid, start, key)
  unfolding match_v1
  IsV1-match_v1 raw keys {uuid} {start} {key} v =
      rw (v.raw_is, splitn-of_three uuid v.ts_str _ v.uuid_Lacks v.ts_Lacks)
        (match_v1_fields-IsV1 uuid v.ts_str start key keys v.uuid_size v.ts_size v.ts_value
          (rw v.keys_are (same_v1_key (uuid ++ b'_' ∷ v.ts_str) v.before v.after key v.first)))

  -- A v1 token is accepted exactly if it is a UUID of 36 bytes, a start time of at most 12 bytes
  -- and the HMAC of the two under one of the keys; the key returned is the first with that HMAC.
  pub match_v1_iff :
      (raw : Bytes) (keys : List SecretKey) (uuid : Bytes) (start : ℤ) (key : SecretKey)
      → (match_v1 c raw keys ≡ ok (uuid, start, key)) ↔ IsV1 c raw keys uuid start key
  unfolding match_v1
  match_v1_iff raw keys uuid start key =
      (λ h. fields-ok raw keys (splitn 3 b'_' raw) uuid start key refl h, IsV1-match_v1 raw keys)

  fields-err :
      (fs : List Bytes) (keys : List SecretKey) {r : TokenResult}
      → match_v1_fields c fs keys ≡ err r
      → (r ≡ parse_error) ⊎ (r ≡ invalid_hmac)
  unfolding match_v1_fields
  fields-err (u ∷ t ∷ m ∷ []) keys h = ground arith
  fields-err _ keys h = ground arith

  -- A v1 token is refused as malformed or for its HMAC.
  pub match_v1-err :
      (raw : Bytes) (keys : List SecretKey) {r : TokenResult}
      → match_v1 c raw keys ≡ err r
      → (r ≡ parse_error) ⊎ (r ≡ invalid_hmac)
  unfolding match_v1
  match_v1-err raw keys h = fields-err (splitn 3 b'_' raw) keys h
