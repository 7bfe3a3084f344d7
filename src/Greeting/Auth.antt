-- ===== src/Greeting/Auth.antt =====
-- Who passes the greeting of src/protocol/greeting.rs.
use open_rmbt_server.Common.{
  ℕ, zero, suc, ◌≡◌, refl, ◌∙◌, subst, Bool, true, false, Option, none, some, List, if◌then◌else◌,
  is_empty,
}
use open_rmbt_server.Text.{Bytes, codes, starts_with, trim_start, trim}
use open_rmbt_server.Address.{IpAddr, SocketAddr}
use open_rmbt_server.Config.Defs.{SecretKey, Config}
use open_rmbt_server.Crypto.{Crypto}
use open_rmbt_server.Io.{
  Outcome, ok, err, panic, stuck, Io, ErrorKind, permission_denied, connection_aborted,
  invalid_data,
}
use open_rmbt_server.Stream.Defs.{read_line, write_line, write_all}
use open_rmbt_server.Stream.Lines.{SamePeer, write_all-peer, read_line-peer}
use open_rmbt_server.Token.Defs.{
  TokenResult, accepted, invalid_hmac, invalid_ip, too_early, too_late, parse_error, v2_required,
  Clock, validate_token,
}
use open_rmbt_server.Greeting.Defs.{
  Greeting, AuthEvent, State, Greet, after, ◌>>=◌, ◌>>◌, pure, fail, out_of_fuel, on, peer_ip, auth,
  sleep, token_line, token_value_of, uuid_of, token_type_of, settle, authenticate, run_greeting,
}

abbrev pub ip_of : Option SocketAddr → Option IpAddr
ip_of p = elim p [ none ↦ none | some a ↦ some a.ip ]

abbrev Post : {A : Type 0} → Option SocketAddr → (A → Type 0) → Outcome A × State → Type 0
Post p P x = (x.1.wire.peer ≡ p) × ((a : _) → x.0 ≡ ok a → P a)

-- With `p` at the other end, the command keeps it there, and what it returns is as P says.
record Returns {A : Type 0} (p : Option SocketAddr) (P : A → Type 0) (m : Greet A) : Type 0 where
  pub run : (s : State) → s.wire.peer ≡ p → Post p P (m s)

abbrev Any : {A : Type 0} → A → Type 0
Any a = Unit

module _ (p : Option SocketAddr) where
  after-Post :
      {A B : Type 0} (P : A → Type 0) (Q : B → Type 0) (r : Outcome A) (s : State) (f : A → Greet B)
      → Post p P (r, s)
      → ((a : A) → P a → Returns p Q (f a))
      → Post p Q (after r s f)
  after-Post P Q (ok a) s f h k = (k a (h.1 a refl)).run s h.0
  after-Post P Q (err e) s f h k = (h.0, λ b e. absurd (cc e))
  after-Post P Q panic s f h k = (h.0, λ b e. absurd (cc e))
  after-Post P Q stuck s f h k = (h.0, λ b e. absurd (cc e))

  >>=-Returns :
      {A B : Type 0} (P : A → Type 0) (Q : B → Type 0) (m : Greet A) (f : A → Greet B)
      → Returns p P m
      → ((a : A) → P a → Returns p Q (f a))
      → Returns p Q (m >>= f)
  unfolding ◌>>=◌
  >>=-Returns P Q m f h k = record { run = λ s e. after-Post P Q (m s).0 (m s).1 f (h.run s e) k }

  pure-Returns : {A : Type 0} (P : A → Type 0) (a : A) → P a → Returns p P (pure a)
  unfolding pure
  pure-Returns P a h = record { run = λ s e. (e, λ b i. subst P (ok_inj i) h) }
    where
      ok_inj : {b : _} → ok a ≡ ok b → a ≡ b
      ok_inj i = cc i

  fail-Returns : {A : Type 0} (P : A → Type 0) (k : ErrorKind) → Returns p P (fail k)
  unfolding fail
  fail-Returns P k = record { run = λ s e. (e, λ b i. absurd (cc i)) }

  out_of_fuel-Returns : {A : Type 0} (P : A → Type 0) → Returns p P out_of_fuel
  unfolding out_of_fuel
  out_of_fuel-Returns P = record { run = λ s e. (e, λ b i. absurd (cc i)) }

  on-Returns : {A : Type 0} (m : Io A) → SamePeer m → Returns p Any (on m)
  unfolding on
  on-Returns m h = record { run = λ s e. (h s.wire ∙ e, λ b i. tt) }

  if-Returns :
      {A : Type 0} (P : A → Type 0) (b : Bool) (m k : Greet A)
      → Returns p P m
      → Returns p P k
      → Returns p P (if b then m else k)
  if-Returns P true m k h i = h
  if-Returns P false m k h i = i

  write-Returns : (b : Bytes) → Returns p Any (on (write_line b))
  write-Returns b = on-Returns (write_all b) (write_all-peer b)

  auth-Returns : (has_sink : Bool) (e : AuthEvent) → Returns p Any (auth has_sink e)
  unfolding auth
  auth-Returns has_sink e = record { run = λ s e. (e, λ b i. tt) }

  sleep-Returns : (n : ℕ) → Returns p Any (sleep n)
  unfolding sleep
  sleep-Returns n = record { run = λ s e. (e, λ b i. tt) }

  peer_ip-Returns : Returns p (λ i. i ≡ ip_of p) peer_ip
  unfolding peer_ip
  peer_ip-Returns = record { run = λ s e. (e, λ b i. cc (i, e)) }

  token_line-Returns : (fuel : ℕ) → Returns p Any (token_line fuel)
  unfolding token_line
  token_line-Returns zero = out_of_fuel-Returns Any
  token_line-Returns (suc n) =
      >>=-Returns Any Any _ _ (on-Returns read_line read_line-peer)
        λ l _. if-Returns Any (is_empty (trim l)) _ _ (token_line-Returns n) (pure-Returns Any l tt)

  -- A reply that ends the greeting.
  refuse-Returns :
      {A : Type 0} (P : A → Type 0) (b : Bytes) (k : ErrorKind)
      → Returns p P (do on (write_line b); fail k)
  refuse-Returns P b k = >>=-Returns Any P _ _ (write-Returns b) λ _ _. fail-Returns P k

  token_value_of-Returns : (line : Bytes) (o : Option Bytes) → Returns p Any (token_value_of line o)
  unfolding token_value_of
  token_value_of-Returns line (some rest) = pure-Returns Any (trim rest) tt
  token_value_of-Returns line none =
      if-Returns Any (starts_with (trim_start line) (codes "QUIT")) _ _
        (refuse-Returns Any (codes "BYE\n") connection_aborted)
        (refuse-Returns Any (codes "ERR\n") invalid_data)

  -- The verdict is an acceptance that carries this label.
  abbrev AcceptedAs : TokenResult → Bytes → Type 0
  AcceptedAs r label = (sleep_secs : ℕ) × (r ≡ accepted sleep_secs label)

  reject-Returns :
      (has_sink : Bool) (e : AuthEvent) (P : Bytes → Type 0)
      → Returns p P (do auth has_sink e; on (write_line (codes "ERR\n")); fail permission_denied)
  reject-Returns has_sink e P =
      >>=-Returns Any P _ _ (auth-Returns has_sink e) λ _ _. refuse-Returns P _ permission_denied

  settle-Returns :
      (has_sink : Bool) (token_value : Bytes) (r : TokenResult)
      → Returns p (AcceptedAs r) (settle has_sink token_value r)
  unfolding settle
  settle-Returns has_sink token_value (accepted n label) =
      >>=-Returns Any (AcceptedAs _) _ _ (auth-Returns has_sink _) λ _ _.
        >>=-Returns Any (AcceptedAs _) _ _ (sleep-Returns _)
          λ _ _. pure-Returns (AcceptedAs _) label (n, refl)
  settle-Returns has_sink token_value invalid_hmac = reject-Returns has_sink _ (AcceptedAs _)
  settle-Returns has_sink token_value invalid_ip = reject-Returns has_sink _ (AcceptedAs _)
  settle-Returns has_sink token_value (too_early d) = reject-Returns has_sink _ (AcceptedAs _)
  settle-Returns has_sink token_value (too_late d) = reject-Returns has_sink _ (AcceptedAs _)
  settle-Returns has_sink token_value parse_error = reject-Returns has_sink _ (AcceptedAs _)
  settle-Returns has_sink token_value v2_required = reject-Returns has_sink _ (AcceptedAs _)

  module _ (c : Crypto) (version : Bytes) (config : Config) (keys : List SecretKey)
      (has_sink : Bool) (clock : Clock) (checked : config.check_token ≡ true) where
    abbrev IsValidFor : Bytes → Bytes → Type 0
    IsValidFor token_value label =
        AcceptedAs (validate_token c token_value keys (ip_of p) config.v2_only clock) label

    authenticate-Returns :
        (token_value : Bytes)
        → Returns p
            (IsValidFor token_value)
            (authenticate c version config keys has_sink clock token_value)
    unfolding authenticate
    authenticate-Returns token_value = rw checked (
        >>=-Returns (λ i. i ≡ ip_of p) (IsValidFor token_value) _ _ peer_ip-Returns
          λ source_ip e. rw e (settle-Returns has_sink token_value _))

    abbrev IsGreetingOf : Bytes → Greeting → Type 0
    IsGreetingOf token_value g =
        IsValidFor token_value g.label
        × (g.uuid ≡ uuid_of token_value)
        × (g.token_type ≡ token_type_of token_value)

    abbrev IsAuthentic : Greeting → Type 0
    IsAuthentic g = (token_value : Bytes) × IsGreetingOf token_value g

    run_greeting-Returns :
        (fuel : ℕ) → Returns p IsAuthentic (run_greeting c version fuel config keys has_sink clock)
    unfolding run_greeting
    run_greeting-Returns fuel = >>=-Returns Any IsAuthentic _ _ (write-Returns _) λ _ _.
        >>=-Returns Any IsAuthentic _ _ (write-Returns _) λ _ _.
          >>=-Returns Any IsAuthentic _ _ (token_line-Returns fuel) λ line _.
            >>=-Returns Any IsAuthentic _ _ (token_value_of-Returns line _) λ token_value _.
              >>=-Returns (IsValidFor token_value) IsAuthentic _ _
                (authenticate-Returns token_value)
                λ label v. >>=-Returns Any IsAuthentic _ _ (write-Returns _) λ _ _.
                  >>=-Returns Any IsAuthentic _ _ (write-Returns _) λ _ _.
                    pure-Returns IsAuthentic
                      (record {
                        uuid = uuid_of token_value;
                        token_type = token_type_of token_value;
                        label = label;
                      })
                      (token_value, (v, refl, refl))

-- With token checking on, a greeting succeeds only for a token that `validate_token` accepts for
-- the IP address of the peer; its uuid, type and label are the ones of that token.
pub run_greeting_authenticated :
    (c : Crypto) (version : Bytes) (fuel : ℕ) (config : Config) (keys : List SecretKey)
    (has_sink : Bool) (clock : Clock) (s : State) (g : Greeting)
    → config.check_token ≡ true
    → (run_greeting c version fuel config keys has_sink clock s).0 ≡ ok g
    → (token_value : Bytes) × (sleep_secs : ℕ) × (validate_token c token_value keys
          (ip_of s.wire.peer)
          config.v2_only
          clock
        ≡ accepted sleep_secs g.label)
      × (g.uuid ≡ uuid_of token_value)
      × (g.token_type ≡ token_type_of token_value)
run_greeting_authenticated c version fuel config keys has_sink clock s g checked h =
    let (token_value, ((n, v), u, t)) =
      ((run_greeting-Returns s.wire.peer c version config keys has_sink clock checked fuel).run s
          refl).1
        g h in
    (token_value, n, v, u, t)
