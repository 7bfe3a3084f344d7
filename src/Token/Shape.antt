-- ===== src/Token/Shape.antt =====
-- The refusals of `match_v1` (src/protocol/token.rs): malformed tokens and forged ones.
use open_rmbt_server.Common.{
  not, ◌||◌, ◌==◌, ltb, is_empty, ◌≤◌, ◌≡◌, refl, sym, ◌∙◌, ◌≢◌, ◌↔◌, ◌⊎◌, inl, inr, Option, none,
  some, List, [], ◌∷◌, ◌++◌, arith, Bool-cases, Option-cases, length, All,
}
use open_rmbt_server.Int.{ℤ}
use open_rmbt_server.Text.{Bytes, splitn, parse_i64, eq_bytes}
use open_rmbt_server.Text.Search.{eq_bytes_iff, Lacks}
use open_rmbt_server.Config.Defs.{SecretKey}
use open_rmbt_server.Crypto.{Crypto}
use open_rmbt_server.Token.Defs.{
  Checked, ok, err, parse_error, invalid_hmac, hmac_sha1_b64, find_v1_key, match_v1_fields,
  match_v1,
}
use open_rmbt_server.Token.V1.{splitn-three, splitn-of_three, parse_i64-is_empty}

-- The form of a v1 token: a UUID of 36 bytes, a start time of at most 12 bytes, and the rest.
pub record IsShaped (raw : Bytes) : Type 0 where
  pub uuid : Bytes
  pub ts_str : Bytes
  pub mac : Bytes
  pub start : ℤ
  pub raw_is : raw ≡ uuid ++ b'_' ∷ (ts_str ++ b'_' ∷ mac)
  pub uuid_Lacks : Lacks b'_' uuid
  pub ts_Lacks : Lacks b'_' ts_str
  pub uuid_size : length uuid ≡ 36
  pub ts_size : length ts_str ≤ 12
  pub ts_value : parse_i64 ts_str ≡ some start

module _ (c : Crypto) where
  -- No key has the HMAC of a token of that form.
  abbrev pub Forged : {raw : Bytes} → IsShaped raw → List SecretKey → Type 0
  Forged s keys = All (λ k. hmac_sha1_b64 c k.key (s.uuid ++ b'_' ∷ s.ts_str) ≢ s.mac) keys

  find_v1_key-none :
      (message mac : Bytes) (keys : List SecretKey)
      → (find_v1_key c message mac keys ≡ none)
        ↔ All (λ k. hmac_sha1_b64 c k.key message ≢ mac) keys
  unfolding find_v1_key
  find_v1_key-none message mac [] = (λ h. tt, λ h. refl)
  find_v1_key-none message mac (k ∷ ks) =
      let rest = find_v1_key-none message mac ks in
      let same = eq_bytes_iff (hmac_sha1_b64 c k.key message) mac in
      elim (Bool-cases (eq_bytes (hmac_sha1_b64 c k.key message) mac)) [
        | inl e ↦ (λ h. absurd (ground arith), λ h. absurd (h.0 (same.0 e)))
        | inr e ↦ (
          λ h. ((λ i. ground (arith, same.1 i)), rest.0 (ground arith)),
          λ h. let r = rest.1 h.1 in ground (arith, r),
        )
      ]

  -- What the search for the key makes of a token of the right form.
  found : Bytes → ℤ → Option SecretKey → Checked (Bytes × ℤ × SecretKey)
  found uuid start none = err invalid_hmac
  found uuid start (some key) = ok (uuid, start, key)

  IsShaped-fields :
      (uuid ts mac : Bytes) (start : ℤ) (keys : List SecretKey) (o : Option SecretKey)
      → length uuid ≡ 36
      → length ts ≤ 12
      → parse_i64 ts ≡ some start
      → find_v1_key c (uuid ++ b'_' ∷ ts) mac keys ≡ o
      → match_v1_fields c (uuid ∷ ts ∷ mac ∷ []) keys ≡ found uuid start o
  unfolding match_v1_fields found
  IsShaped-fields uuid ts mac start keys none s t v f = ground (arith, parse_i64-is_empty ts v)
  IsShaped-fields uuid ts mac start keys (some key) s t v f =
      ground (arith, parse_i64-is_empty ts v)

  IsShaped-found :
      {raw : Bytes} (keys : List SecretKey) (s : IsShaped raw) (o : Option SecretKey)
      → find_v1_key c (s.uuid ++ b'_' ∷ s.ts_str) s.mac keys ≡ o
      → match_v1 c raw keys ≡ found s.uuid s.start o
  unfolding match_v1
  IsShaped-found keys s o e =
      rw (s.raw_is, splitn-of_three s.uuid s.ts_str s.mac s.uuid_Lacks s.ts_Lacks)
        (IsShaped-fields s.uuid s.ts_str s.mac s.start keys o s.uuid_size s.ts_size s.ts_value e)

  fields-IsShaped :
      (raw : Bytes) (fs : List Bytes)
      → splitn 3 b'_' raw ≡ fs
      → IsShaped raw ⊎ ((keys : List SecretKey) → match_v1_fields c fs keys ≡ err parse_error)
  unfolding match_v1_fields
  fields-IsShaped raw (u ∷ t ∷ m ∷ []) e =
      elim (Bool-cases (not (length u == 36) || is_empty t || ltb 12 (length t))) [
        | inl bad ↦ inr (λ keys. ground arith)
        | inr good ↦ elim (Option-cases (parse_i64 t)) [
          | inl f ↦ inr (λ keys. ground arith)
          | inr (start, f) ↦
              let parts = splitn-three raw u t m e in
              inl (record {
                uuid = u;
                ts_str = t;
                mac = m;
                start = start;
                raw_is = parts.0;
                uuid_Lacks = parts.1;
                ts_Lacks = parts.2;
                uuid_size = ground arith;
                ts_size = ground arith;
                ts_value = f;
              })
        ]
      ]
  fields-IsShaped raw [] e = inr (λ keys. refl)
  fields-IsShaped raw (a ∷ []) e = inr (λ keys. refl)
  fields-IsShaped raw (a ∷ b ∷ []) e = inr (λ keys. refl)
  fields-IsShaped raw (a ∷ b ∷ d ∷ f ∷ fs) e = inr (λ keys. refl)

  -- A token is of that form, or refused as malformed whatever the keys.
  pub IsShaped-or_refused :
      (raw : Bytes)
      → IsShaped raw ⊎ ((keys : List SecretKey) → match_v1 c raw keys ≡ err parse_error)
  unfolding match_v1
  IsShaped-or_refused raw = fields-IsShaped raw (splitn 3 b'_' raw) refl

  pub Forged-match_v1 :
      {raw : Bytes} (keys : List SecretKey) (s : IsShaped raw)
      → Forged s keys
      → match_v1 c raw keys ≡ err invalid_hmac
  unfolding found
  Forged-match_v1 keys s h = IsShaped-found keys s none ((find_v1_key-none _ s.mac keys).1 h)

  -- With no key at all, a token of that form is refused for its HMAC.
  refused-IsShaped : {raw : Bytes} → IsShaped raw → ¬ (match_v1 c raw [] ≡ err parse_error)
  refused-IsShaped s h = absurd (cc (sym (Forged-match_v1 [] s tt) ∙ h))

  pub unshaped-match_v1 :
      (raw : Bytes) (keys : List SecretKey) → ¬ IsShaped raw → match_v1 c raw keys ≡ err parse_error
  unshaped-match_v1 raw keys h = elim (IsShaped-or_refused raw) [
    | inl s ↦ absurd (h s)
    | inr refused ↦ refused keys
  ]

  -- The three verdicts on a v1 token.
  pub match_v1_verdict :
      (raw : Bytes) (keys : List SecretKey)
      → ((uuid : Bytes) × (start : ℤ) × (key : SecretKey) × (match_v1 c raw keys
            ≡ ok (uuid, start, key)))
        ⊎ ((s : IsShaped raw) × Forged s keys)
        ⊎ (¬ IsShaped raw)
  unfolding found
  match_v1_verdict raw keys = elim (IsShaped-or_refused raw) [
    | inr refused ↦ inr (inr (λ s. refused-IsShaped s (refused [])))
    | inl s ↦ elim (Option-cases (find_v1_key c (s.uuid ++ b'_' ∷ s.ts_str) s.mac keys)) [
      | inl e ↦ inr (inl (s, (find_v1_key-none _ s.mac keys).0 e))
      | inr (key, e) ↦ inl (s.uuid, s.start, key, IsShaped-found keys s (some key) e)
    ]
  ]
