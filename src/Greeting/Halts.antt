-- ===== src/Greeting/Halts.antt =====
-- The greeting of src/protocol/greeting.rs comes to a result: the loop that skips blank lines ends,
-- since every line takes something from what the client has still to deliver.
use open_rmbt_server.Common.{
  ℕ, zero, suc, ◌<◌, refl, Bool, true, false, Option, none, some, List, [], arith, if◌then◌else◌,
  is_empty,
}
use open_rmbt_server.Text.{Bytes, codes, starts_with, trim_start, trim}
use open_rmbt_server.Config.Defs.{SecretKey, Config}
use open_rmbt_server.Crypto.{Crypto}
use open_rmbt_server.Io.{
  Outcome, ok, err, panic, stuck, Io, ErrorKind, connection_aborted, invalid_data,
  permission_denied,
}
use open_rmbt_server.Io.Tame.{left, Tamed, Tame, same_Tamed, then_Tamed, err_Tamed}
use open_rmbt_server.Stream.Defs.{read_line, write_line}
use open_rmbt_server.Stream.Tame.{Eats, write_all-Tame, read_line-Tame, read_line-Eats}
use open_rmbt_server.Token.Defs.{
  TokenResult, accepted, invalid_hmac, invalid_ip, too_early, too_late, parse_error, v2_required,
  Clock,
}
use open_rmbt_server.Greeting.Defs.{
  AuthEvent, State, Greet, after, ◌>>=◌, ◌>>◌, pure, fail, on, peer_ip, auth, sleep, token_line,
  token_value_of, settle, authenticate, run_greeting,
}

-- The state and the result, seen from the wire.
abbrev pub At : {A : Type 0} → State → Outcome A × State → Type 0
At s x = Tamed s.wire (x.0, x.1.wire)

-- With less than `n` to read, the command is tame.
pub record Halts {A : Type 0} (n : ℕ) (m : Greet A) : Type 0 where
  pub run : (s : State) → left s.wire < n → At s (m s)

after-At :
    {A B : Type 0} (n : ℕ) (s t : State) (r : Outcome A) (f : A → Greet B)
    → left s.wire < n
    → At s (r, t)
    → ((a : A) → Halts n (f a))
    → At s (after r t f)
after-At n s t (ok a) f l h k =
    then_Tamed s.wire t.wire (ok a) _ h ((k a).run t (omega (arith, l, h.less)))
after-At n s t (err e) f l h k = err_Tamed s.wire t.wire (err e) e h
after-At n s t panic f l h k = absurd h.settled
after-At n s t stuck f l h k = absurd h.settled

module _ (n : ℕ) where
  >>=-Halts :
      {A B : Type 0} (m : Greet A) (f : A → Greet B)
      → Halts n m
      → ((a : A) → Halts n (f a))
      → Halts n (m >>= f)
  unfolding ◌>>=◌
  >>=-Halts m f h k = record { run = λ s l. after-At n s (m s).1 (m s).0 f l (h.run s l) k }

  pure-Halts : {A : Type 0} (a : A) → Halts n (pure a)
  unfolding pure
  pure-Halts a = record { run = λ s l. same_Tamed s.wire s.wire (ok a) refl refl refl refl refl tt }

  fail-Halts : {A : Type 0} (e : ErrorKind) → Halts {A = A} n (fail e)
  unfolding fail
  fail-Halts e = record {
    run = λ s l. same_Tamed s.wire s.wire (err e) refl refl refl refl refl tt;
  }

  on-Halts : {A : Type 0} (m : Io A) → Tame m → Halts n (on m)
  unfolding on
  on-Halts m h = record { run = λ s l. h.run s.wire }

  if-Halts :
      {A : Type 0} (b : Bool) (m k : Greet A) → Halts n m → Halts n k → Halts n (if b then m else k)
  if-Halts true m k h i = h
  if-Halts false m k h i = i

  write-Halts : (b : Bytes) → Halts n (on (write_line b))
  write-Halts b = on-Halts _ (write_all-Tame b)

  auth-Halts : (has_sink : Bool) (e : AuthEvent) → Halts n (auth has_sink e)
  unfolding auth
  auth-Halts has_sink e = record {
    run = λ s l. same_Tamed s.wire s.wire (ok tt) refl refl refl refl refl tt;
  }

  sleep-Halts : (m : ℕ) → Halts n (sleep m)
  unfolding sleep
  sleep-Halts m = record {
    run = λ s l. same_Tamed s.wire s.wire (ok tt) refl refl refl refl refl tt;
  }

  peer_ip-Halts : Halts n peer_ip
  unfolding peer_ip
  peer_ip-Halts = record {
    run = λ s l. same_Tamed s.wire s.wire (ok _) refl refl refl refl refl tt;
  }

  -- A reply that ends the greeting.
  refuse-Halts :
      {A : Type 0} (b : Bytes) (e : ErrorKind) → Halts {A = A} n (do on (write_line b); fail e)
  refuse-Halts b e = >>=-Halts _ _ (write-Halts b) λ _. fail-Halts e

  token_value_of-Halts : (line : Bytes) (o : Option Bytes) → Halts n (token_value_of line o)
  unfolding token_value_of
  token_value_of-Halts line (some rest) = pure-Halts (trim rest)
  token_value_of-Halts line none =
      if-Halts (starts_with (trim_start line) (codes "QUIT")) _ _
        (refuse-Halts (codes "BYE\n") connection_aborted)
        (refuse-Halts (codes "ERR\n") invalid_data)

  reject-Halts :
      (has_sink : Bool) (e : AuthEvent)
      → Halts {A = Bytes} n
          (do auth has_sink e; on (write_line (codes "ERR\n")); fail permission_denied)
  reject-Halts has_sink e =
      >>=-Halts _ _ (auth-Halts has_sink e) λ _. refuse-Halts _ permission_denied

  settle-Halts :
      (has_sink : Bool) (token_value : Bytes) (r : TokenResult)
      → Halts n (settle has_sink token_value r)
  unfolding settle
  settle-Halts has_sink token_value (accepted m label) =
      >>=-Halts _ _ (auth-Halts has_sink _) λ _. >>=-Halts _ _ (sleep-Halts _) λ _. pure-Halts label
  settle-Halts has_sink token_value invalid_hmac = reject-Halts has_sink _
  settle-Halts has_sink token_value invalid_ip = reject-Halts has_sink _
  settle-Halts has_sink token_value (too_early d) = reject-Halts has_sink _
  settle-Halts has_sink token_value (too_late d) = reject-Halts has_sink _
  settle-Halts has_sink token_value parse_error = reject-Halts has_sink _
  settle-Halts has_sink token_value v2_required = reject-Halts has_sink _

-- A line that was read leaves less to read than there was.
after_line-At :
    {B : Type 0} (n : ℕ) (s t : State) (r : Outcome Bytes) (f : Bytes → Greet B)
    → left s.wire < suc n
    → At s (r, t)
    → Eats s.wire (r, t.wire)
    → ((l : Bytes) → Halts n (f l))
    → At s (after r t f)
after_line-At n s t (ok a) f l h e k =
    then_Tamed s.wire t.wire (ok a) _ h ((k a).run t (omega (arith, l, e)))
after_line-At n s t (err e) f l h i k = err_Tamed s.wire t.wire (err e) e h
after_line-At n s t panic f l h i k = absurd h.settled
after_line-At n s t stuck f l h i k = absurd h.settled

token_line-Halts : (n : ℕ) → Halts n (token_line n)
unfolding token_line ◌>>=◌ on
token_line-Halts zero = record { run = λ s l. absurd (omega (arith, l)) }
token_line-Halts (suc n) = record {
  run = λ s l.
      after_line-At n s _ (read_line s.wire).0 _ l (read_line-Tame.run s.wire)
        (read_line-Eats s.wire)
        λ line. if-Halts n (is_empty (trim line)) _ _ (token_line-Halts n) (pure-Halts n line);
}

module _ (c : Crypto) (version : Bytes) (config : Config) (keys : List SecretKey) (has_sink : Bool)
    (clock : Clock) where
  authenticate-Halts :
      (n : ℕ) (token_value : Bytes)
      → Halts n (authenticate c version config keys has_sink clock token_value)
  unfolding authenticate
  authenticate-Halts n token_value =
      if-Halts n config.check_token _ _
        (>>=-Halts n _ _ (peer_ip-Halts n) λ source_ip. settle-Halts n has_sink token_value _)
        (>>=-Halts n _ _ (auth-Halts n has_sink _) λ _. pure-Halts n [])

  -- With more fuel than there are bytes and frames to come, the greeting comes to a result.
  pub run_greeting-Halts : (n : ℕ) → Halts n (run_greeting c version n config keys has_sink clock)
  unfolding run_greeting
  run_greeting-Halts n = >>=-Halts n _ _ (write-Halts n _) λ _.
      >>=-Halts n _ _ (write-Halts n _) λ _. >>=-Halts n _ _ (token_line-Halts n) λ line.
        >>=-Halts n _ _ (token_value_of-Halts n line _) λ token_value.
          >>=-Halts n _ _ (authenticate-Halts n token_value) λ label.
            >>=-Halts n _ _ (write-Halts n _)
              λ _. >>=-Halts n _ _ (write-Halts n _) λ _. pure-Halts n _
