-- ===== src/Greeting/Decide.antt =====
-- What the parts of run_greeting of src/protocol/greeting.rs write and report: the token line, the
-- value on it, and the decision on the token.
use open_rmbt_server.Common.{
  ℕ, zero, suc, ◌≡◌, ◌≢◌, refl, sym, ap, ◌∙◌, ◌⊎◌, inl, inr, Bool, true, false, Option, none, some,
  List, [], ◌∷◌, ltb, if◌then◌else◌, is_empty,
}
use open_rmbt_server.Text.{Bytes, codes, starts_with, trim_start, trim}
use open_rmbt_server.Config.Defs.{SecretKey, Config}
use open_rmbt_server.Crypto.{Crypto}
use open_rmbt_server.Io.{
  ErrorKind, permission_denied, connection_aborted, invalid_data, Outcome, ok, err, panic, stuck,
}
use open_rmbt_server.Io.Tame.{IsSettled}
use open_rmbt_server.Stream.Defs.{read_line, write_line}
use open_rmbt_server.Stream.Tame.{read_line-Tame}
use open_rmbt_server.Stream.Taken.{read_line-same}
use open_rmbt_server.Token.Defs.{
  TokenResult, accepted, invalid_hmac, invalid_ip, too_early, too_late, parse_error, v2_required,
  Clock, validate_token,
}
use open_rmbt_server.Greeting.Defs.{
  AuthEvent, ◌>>=◌, ◌>>◌, pure, fail, on, peer_ip, auth, token_line, token_value_of, event, settle,
  reject_reason, authenticate,
}
use open_rmbt_server.Greeting.Auth.{ip_of}
use open_rmbt_server.Greeting.Says.{write_then, auth_then, peer_ip_then, sleep_then}
use open_rmbt_server.Greeting.Logs.{
  IsCalm, if-Logs, out_of_fuel-Logs, Setting, Spec, Behind, Logs, IsQuiet, quiet_then, pure-Logs,
  fail-Logs,
}

calm : {A : Type 0} (r : Outcome A) → IsSettled r → IsCalm r
calm (ok a) h = tt
calm (err k) h = tt
calm panic h = h
calm stuck h = absurd h

module _ (e : Setting) where
  read_line-IsQuiet : IsQuiet e (on read_line)
  unfolding on
  read_line-IsQuiet = record {
    run = λ s f.
        let (i, fs, same) = read_line-same s.wire in
        record {
          fits = record {
            kind = ap (λ w. w.kind) same ∙ f.kind;
            peer = ap (λ w. w.peer) same ∙ f.peer;
            faults = ap (λ w. w.faults) same ∙ f.faults;
          };
          sent = ap (λ w. w.sent) same;
          events = refl;
          calm = calm (read_line s.wire).0 ((read_line-Tame.run s.wire).settled);
        };
  }

  -- The loop that skips blank lines writes and reports nothing.
  abbrev pub LineRead : Spec Bytes
  LineRead (ok a) l v = (l ≡ []) × (v ≡ [])
  LineRead (err k) l v = (l ≡ []) × (v ≡ [])
  LineRead panic l v = ⊥
  LineRead stuck l v = (l ≡ []) × (v ≡ [])

  pub token_line-Logs : (n : ℕ) → Logs e LineRead (token_line n)
  unfolding token_line
  token_line-Logs zero = out_of_fuel-Logs e LineRead (refl, refl)
  token_line-Logs (suc n) =
      quiet_then e LineRead (on read_line) _ read_line-IsQuiet
        (λ l.
          if-Logs e LineRead (is_empty (trim l)) _ _ (token_line-Logs n)
            (pure-Logs e LineRead l (refl, refl)))
        (λ k. (refl, refl)) (refl, refl)

  -- The value on the line, or the answer to a line that is no token: a farewell or an error.
  abbrev pub ValueFound : Bytes → Option Bytes → Spec Bytes
  ValueFound line o (ok a) l v =
      (l ≡ []) × (v ≡ []) × ((rest : Bytes) × (o ≡ some rest) × (a ≡ trim rest))
  ValueFound line o (err k) l v =
      (v ≡ [])
      × (o ≡ none)
      × ((starts_with (trim_start line) (codes "QUIT") ≡ true)
            × (l ≡ codes "BYE\n" ∷ [])
            × (k ≡ connection_aborted)
          ⊎ (starts_with (trim_start line) (codes "QUIT") ≡ false)
            × (l ≡ codes "ERR\n" ∷ [])
            × (k ≡ invalid_data))
  ValueFound line o panic l v = ⊥
  ValueFound line o stuck l v = ⊥

  no_token-Logs :
      (line : Bytes) (b : Bool)
      → starts_with (trim_start line) (codes "QUIT") ≡ b
      → Logs e (ValueFound line none) (
          if b
          then (do on (write_line (codes "BYE\n")); fail connection_aborted)
          else (do on (write_line (codes "ERR\n")); fail invalid_data))
  no_token-Logs line true i = write_then e (ValueFound line none) (codes "BYE\n") _ (
      fail-Logs e (Behind (ValueFound line none) (codes "BYE\n" ∷ []) []) connection_aborted
        (refl, refl, inl (i, refl, refl)))
  no_token-Logs line false i = write_then e (ValueFound line none) (codes "ERR\n") _ (
      fail-Logs e (Behind (ValueFound line none) (codes "ERR\n" ∷ []) []) invalid_data
        (refl, refl, inr (i, refl, refl)))

  pub token_value_of-Logs :
      (line : Bytes) (o : Option Bytes) → Logs e (ValueFound line o) (token_value_of line o)
  unfolding token_value_of
  token_value_of-Logs line (some rest) =
      pure-Logs e (ValueFound line (some rest)) (trim rest) (refl, refl, (rest, refl, refl))
  token_value_of-Logs line none = no_token-Logs line _ refl

module _ (c : Crypto) (version : Bytes) (config : Config) (keys : List SecretKey) (clock : Clock)
    (e : Setting) where
  abbrev pub verdict : Bytes → TokenResult
  verdict token_value = validate_token c token_value keys (ip_of e.peer) config.v2_only clock

  -- The greeting went on: the token was accepted, or tokens are not checked.
  abbrev pub Passed : Bytes → Bytes → List AuthEvent → Type 0
  Passed token_value label v =
      (config.check_token ≡ true)
        × ((n : ℕ) × (verdict token_value ≡ accepted n label))
        × (v ≡ event token_value (codes "accepted") (some label) none ∷ [])
      ⊎ (config.check_token ≡ false)
        × (label ≡ [])
        × (v ≡ event token_value (codes "not_checked") none none ∷ [])

  -- The token was refused.
  abbrev pub Refused : Bytes → ErrorKind → List AuthEvent → Type 0
  Refused token_value k v =
      (config.check_token ≡ true)
      × ((n : ℕ) (label : Bytes) → verdict token_value ≢ accepted n label)
      × (k ≡ permission_denied)
      × (v
          ≡ event token_value (codes "rejected") none (some (reject_reason (verdict token_value)))
            ∷ [])

  abbrev pub Decided : Bytes → Spec Bytes
  Decided token_value (ok label) l v = (l ≡ []) × Passed token_value label v
  Decided token_value (err k) l v = (l ≡ codes "ERR\n" ∷ []) × Refused token_value k v
  Decided token_value panic l v = ⊥
  Decided token_value stuck l v = ⊥

  module _ (token_value : Bytes) (h : config.check_token ≡ true) where
    abbrev rejection : TokenResult → AuthEvent
    rejection r = event token_value (codes "rejected") none (some (reject_reason r))

    reject-Logs :
        (r : TokenResult)
        → verdict token_value ≡ r
        → ((n : ℕ) (label : Bytes) → r ≢ accepted n label)
        → Logs e (Decided token_value) (do
          auth e.has_sink (rejection r)
          on (write_line (codes "ERR\n"))
          fail permission_denied)
    reject-Logs r i other = auth_then e (Decided token_value) (rejection r) _ (
        write_then e (Behind (Decided token_value) [] (rejection r ∷ [])) (codes "ERR\n") _ (
          fail-Logs e
            (Behind (Behind (Decided token_value) [] (rejection r ∷ [])) (codes "ERR\n" ∷ []) [])
            permission_denied
            (
              refl,
              (
                h,
                (λ n label k. other n label (sym i ∙ k)),
                refl,
                ap (λ t. rejection t ∷ []) (sym i),
              ),
            )))

    settle-Logs :
        (r : TokenResult)
        → verdict token_value ≡ r
        → Logs e (Decided token_value) (settle e.has_sink token_value r)
    unfolding settle
    settle-Logs (accepted n label) i =
        let v = event token_value (codes "accepted") (some label) none in
        auth_then e (Decided token_value) v _ (
          sleep_then e (Behind (Decided token_value) [] (v ∷ [])) (if ltb 0 n then n else 0) _ (
            pure-Logs e (Behind (Decided token_value) [] (v ∷ [])) label
              (refl, inl (h, (n, i), refl))))
    settle-Logs invalid_hmac i = reject-Logs invalid_hmac i λ n l k. absurd (cc k)
    settle-Logs invalid_ip i = reject-Logs invalid_ip i λ n l k. absurd (cc k)
    settle-Logs (too_early d) i = reject-Logs (too_early d) i λ n l k. absurd (cc k)
    settle-Logs (too_late d) i = reject-Logs (too_late d) i λ n l k. absurd (cc k)
    settle-Logs parse_error i = reject-Logs parse_error i λ n l k. absurd (cc k)
    settle-Logs v2_required i = reject-Logs v2_required i λ n l k. absurd (cc k)

  either-Logs :
      (token_value : Bytes) (b : Bool)
      → config.check_token ≡ b
      → Logs e (Decided token_value) (
          if b
          then (do
            source_ip ← peer_ip
            settle e.has_sink token_value
                (validate_token c token_value keys source_ip config.v2_only clock))
          else (do auth e.has_sink (event token_value (codes "not_checked") none none); pure []))
  either-Logs token_value true h =
      peer_ip_then e (Decided token_value) _ (settle-Logs token_value h _ refl)
  either-Logs token_value false h =
      let v = event token_value (codes "not_checked") none none in
      auth_then e (Decided token_value) v _
        (pure-Logs e (Behind (Decided token_value) [] (v ∷ [])) [] (refl, inr (h, refl, refl)))

  pub authenticate-Logs :
      (token_value : Bytes)
      → Logs e
          (Decided token_value)
          (authenticate c version config keys e.has_sink clock token_value)
  unfolding authenticate
  authenticate-Logs token_value = either-Logs token_value config.check_token refl
