-- ===== src/Greeting/Defs.antt =====
-- `run_greeting` of src/protocol/greeting.rs. `version` is RMBTD_VERSION, set by the build. The
-- auth events that go to the sink are recorded, and so is the time slept.
use open_rmbt_server.Common.{
  ℕ, zero, suc, ◌+◌, Bool, Option, none, some, List, [], ◌∷◌, ◌++◌, ltb, if◌then◌else◌, is_empty,
}
use open_rmbt_server.Text.{
  Bytes, codes, strip_prefix, starts_with, contains, split, next_or, trim_start, trim, show,
}
use open_rmbt_server.Address.{IpAddr}
use open_rmbt_server.Config.Defs.{
  SecretKey, Config, chunk_size_default, min_chunk_size, max_chunk_size,
}
use open_rmbt_server.Crypto.{Crypto}
use open_rmbt_server.Io.{
  Outcome, ok, err, panic, stuck, Io, Wire, ErrorKind, connection_aborted, invalid_data,
  permission_denied,
}
use open_rmbt_server.Stream.Defs.{read_line, write_line}
use open_rmbt_server.Token.Defs.{
  TokenResult, accepted, invalid_hmac, invalid_ip, too_early, too_late, parse_error, v2_required,
  Clock, validate_token,
}

pub record Greeting : Type 0 where
  pub uuid : Bytes
  pub token_type : Bytes
  pub label : Bytes

-- The arguments of `EventSink::auth` that the greeting decides.
pub record AuthEvent : Type 0 where
  pub uuid : Bytes
  pub token_type : Bytes
  pub result : Bytes
  pub label : Option Bytes
  pub reason : Option Bytes

pub record State : Type 0 where
  pub wire : Wire
  pub events : List AuthEvent
  pub slept : ℕ

abbrev pub Greet : Type 0 → Type 0
Greet A = State → Outcome A × State

abbrev pub after : {A B : Type 0} → Outcome A → State → (A → Greet B) → Outcome B × State
after (ok a) s f = f a s
after (err e) s f = (err e, s)
after panic s f = (panic, s)
after stuck s f = (stuck, s)

infixl 5 ◌>>=◌ ◌>>◌
unfoldable pub ◌>>=◌ : {A B : Type 0} → Greet A → (A → Greet B) → Greet B
m >>= f = λ s. after (m s).0 (m s).1 f

abbrev pub ◌>>◌ : {A B : Type 0} → Greet A → Greet B → Greet B
m >> k = m >>= λ _. k

unfoldable pub pure : {A : Type 0} → A → Greet A
pure a s = (ok a, s)

unfoldable pub fail : {A : Type 0} → ErrorKind → Greet A
fail e s = (err e, s)

unfoldable pub out_of_fuel : {A : Type 0} → Greet A
out_of_fuel s = (stuck, s)

unfoldable pub on : {A : Type 0} → Io A → Greet A
on m s = let (r, w) = m s.wire in (r, record s { wire = w })

unfoldable pub peer_ip : Greet (Option IpAddr)
peer_ip s = (ok (elim s.wire.peer [ none ↦ none | some a ↦ some a.ip ]), s)

-- `if let Some(s) = sink { s.auth(...) }`.
unfoldable pub auth : Bool → AuthEvent → Greet (Unit {0})
auth has_sink e s = (ok tt, record s { events = if has_sink then s.events ++ e ∷ [] else s.events })

unfoldable pub sleep : ℕ → Greet (Unit {0})
sleep n s = (ok tt, record s { slept = s.slept + n })

unfoldable pub reject_reason : TokenResult → Bytes
reject_reason invalid_hmac = codes "invalid_hmac"
reject_reason invalid_ip = codes "invalid_ip"
reject_reason (too_early _) = codes "too_early"
reject_reason (too_late _) = codes "too_late"
reject_reason parse_error = codes "parse_error"
reject_reason v2_required = codes "v2_required"
reject_reason (accepted _ _) = codes "accepted"

-- The loop that skips blank lines.
unfoldable pub token_line : ℕ → Greet Bytes
token_line zero = out_of_fuel
token_line (suc n) = do l ← on read_line; if is_empty (trim l) then token_line n else pure l

-- "TOKEN <value>", with the two ways out.
unfoldable pub token_value_of : Bytes → Option Bytes → Greet Bytes
token_value_of line (some rest) = pure (trim rest)
token_value_of line none =
    if starts_with (trim_start line) (codes "QUIT")
    then (do on (write_line (codes "BYE\n")); fail connection_aborted)
    else (do on (write_line (codes "ERR\n")); fail invalid_data)

unfoldable pub uuid_of : Bytes → Bytes
uuid_of token_value = next_or (codes "?") (split b'_' token_value)

unfoldable pub token_type_of : Bytes → Bytes
token_type_of token_value = if contains token_value (codes "#v2#") then codes "v2" else codes "v1"

-- The event for a token, with what is known of the outcome.
abbrev pub event : Bytes → Bytes → Option Bytes → Option Bytes → AuthEvent
event token_value result label reason = record {
  uuid = uuid_of token_value;
  token_type = token_type_of token_value;
  result = result;
  label = label;
  reason = reason;
}

abbrev pub chunksize_line : Bytes
chunksize_line =
    codes "CHUNKSIZE "
    ++ (show chunk_size_default
        ++ (b' ' ∷ (show min_chunk_size ++ (b' ' ∷ (show max_chunk_size ++ codes "\n")))))

-- The match on the token result; the label on success.
unfoldable pub settle : Bool → Bytes → TokenResult → Greet Bytes
settle has_sink token_value (accepted sleep_secs label) = do
  auth has_sink (event token_value (codes "accepted") (some label) none)
  sleep (if ltb 0 sleep_secs then sleep_secs else 0)
  pure label
settle has_sink token_value rejected = do
  auth has_sink (event token_value (codes "rejected") none (some (reject_reason rejected)))
  on (write_line (codes "ERR\n"))
  fail permission_denied

module _ (c : Crypto) (version : Bytes) where
  unfoldable pub authenticate : Config → List SecretKey → Bool → Clock → Bytes → Greet Bytes
  authenticate config keys has_sink clock token_value =
      if config.check_token
      then (do
        source_ip ← peer_ip
        settle has_sink token_value
            (validate_token c token_value keys source_ip config.v2_only clock))
      else (do auth has_sink (event token_value (codes "not_checked") none none); pure [])

  unfoldable pub run_greeting : ℕ → Config → List SecretKey → Bool → Clock → Greet Greeting
  run_greeting fuel config keys has_sink clock = do
    on (write_line (codes "RMBTv" ++ (version ++ codes "\n")))
    on (write_line (codes "ACCEPT TOKEN QUIT\n"))
    line ← token_line fuel
    token_value ← token_value_of line (strip_prefix (codes "TOKEN ") line)
    label ← authenticate config keys has_sink clock token_value
    on (write_line (codes "OK\n"))
    on (write_line chunksize_line)
    pure (record {
      uuid = uuid_of token_value;
      token_type = token_type_of token_value;
      label = label;
    })
