-- ===== src/Witness/Sessions.antt =====
-- The greeting and the address check at a concrete token.
use open_rmbt_server.Common.{ℕ, ◌+◌, ◌≡◌, refl, true, false, none, some, [], ◌∷◌, ◌++◌, arith}
use open_rmbt_server.Int.{ℤ, pos, ◌+ℤ◌, ◌≤ℤ◌}
use open_rmbt_server.Text.{Bytes, codes, strip_prefix, split_once, contains, split, trim, show_ℤ}
use open_rmbt_server.Address.{to_canonical, IsAddr}
use open_rmbt_server.Config.Defs.{default_config}
use open_rmbt_server.Io.{ok}
use open_rmbt_server.Token.Defs.{
  Clock, TokenResult, accepted, Checked, IpToken, validate_token, check_ip_token, split_ip_token,
  is_matching_ip,
}
use open_rmbt_server.Token.V1.{IsV1}
use open_rmbt_server.Token.Issue.{make_v1}
use open_rmbt_server.Token.IpCheck.{check_ip_token-ok}
use open_rmbt_server.Greeting.Defs.{Greeting, State, run_greeting, uuid_of, token_type_of}
use open_rmbt_server.Greeting.Auth.{run_greeting_authenticated}
use open_rmbt_server.IpCheck.Defs.{
  Parsers, Value, object, string, and_member, no_members, request, good, Answer, ip_response,
  parse_uuid,
}
use open_rmbt_server.IpCheck.Answer.{signed_end, unsigned_start, ip_response_signed}
use open_rmbt_server.Witness.Setup.{c, uuid, key, home, wire, mac, encode}

abbrev pub clock : Clock
clock = record { first = 5000; second = 5000 }

abbrev pub token : Bytes
token = make_v1 c key.key uuid (pos 5003)

abbrev checked : IpToken
checked = record { key = key; open_test_uuid = uuid; matching_ip = false }

token-Checked : check_ip_token c token (key ∷ []) home 5000 ≡ Checked.ok checked
unfolding check_ip_token make_v1 open_rmbt_server.Token.Defs.match_v1 split_ip_token
    open_rmbt_server.Text.show_ℤ encode mac open_rmbt_server.Token.Defs.window_check is_matching_ip
token-Checked = refl

abbrev pub start : State
start = record { wire = wire (codes "TOKEN " ++ (token ++ codes "\n")); events = []; slept = 0 }

abbrev greeting : Greeting
greeting = record { uuid = uuid; token_type = codes "v1"; label = codes "prod" }

greeted :
    (run_greeting c (codes "1.7.0") 3 default_config (key ∷ []) true clock start).0 ≡ ok greeting
unfolding run_greeting make_v1 open_rmbt_server.Greeting.Defs.◌>>=◌
    open_rmbt_server.Greeting.Defs.on open_rmbt_server.Stream.Defs.write_all
    open_rmbt_server.Greeting.Defs.token_line open_rmbt_server.Stream.Defs.read_line
    open_rmbt_server.Text.show_ℤ open_rmbt_server.Token.Defs.hmac_sha1_b64 encode mac
    open_rmbt_server.Text.trim open_rmbt_server.Greeting.Defs.pure
    open_rmbt_server.Greeting.Defs.token_value_of open_rmbt_server.Text.strip_prefix
    open_rmbt_server.Greeting.Defs.authenticate open_rmbt_server.Greeting.Defs.peer_ip
    open_rmbt_server.Greeting.Defs.settle validate_token open_rmbt_server.Greeting.Defs.auth
    open_rmbt_server.Greeting.Defs.sleep token_type_of uuid_of open_rmbt_server.Text.contains
    open_rmbt_server.Text.split open_rmbt_server.Token.Defs.extract_v2
    open_rmbt_server.Token.Defs.match_v1 open_rmbt_server.Token.Defs.time_window
    open_rmbt_server.Token.Defs.validate_v1 open_rmbt_server.Text.split_once
greeted = refl

check_ip_token-ok_example :
    (at : ℤ) × IsV1 c (split_ip_token token).0 (key ∷ []) uuid at key
    × (at ≤ℤ pos (5000 + 20))
    × (pos 5000 ≤ℤ at +ℤ pos 90)
    × (false ≡ is_matching_ip c (split_ip_token token).1 key home)
check_ip_token-ok_example = check_ip_token-ok c (key ∷ []) home 5000 token token-Checked

run_greeting_authenticated_example :
    (token_value : Bytes) × (sleep_secs : ℕ) × (validate_token c token_value
        (key ∷ [])
        (some home)
        false
        clock
      ≡ accepted sleep_secs (codes "prod"))
    × (uuid ≡ uuid_of token_value)
    × (codes "v1" ≡ token_type_of token_value)
run_greeting_authenticated_example =
    run_greeting_authenticated c (codes "1.7.0") 3 default_config (key ∷ []) true clock start
      greeting refl greeted

-- A UUID in its canonical form, for the address check.
abbrev test_uuid : Bytes
test_uuid = codes "f71d53f4-c67c-4b99-b319-979f714cd408"

abbrev test_token : Bytes
test_token = make_v1 c key.key test_uuid (pos 5003)

abbrev pub parsers : Parsers
parsers = record {
  from_slice = λ b. some (object (and_member (codes "token") (string b) no_members));
  parse_error_text = λ b. [];
  parse_ip = λ b. some home;
  show_ip = λ ip. codes "10.0.0.7";
  error_body = λ m. m;
}

requested : request parsers test_token ≡ good (none, some test_token)
unfolding request make_v1 open_rmbt_server.IpCheck.Defs.fields show_ℤ
    open_rmbt_server.Token.Defs.hmac_sha1_b64 encode mac
requested = refl

answered : (a : Answer) × (ip_response c parsers test_token home (key ∷ []) 5000 ≡ good a)
unfolding ip_response make_v1 request open_rmbt_server.IpCheck.Defs.fields
    open_rmbt_server.IpCheck.Defs.sign show_ℤ open_rmbt_server.Token.Defs.hmac_sha1_b64 encode mac
    check_ip_token open_rmbt_server.Token.Defs.match_v1 split_ip_token
    open_rmbt_server.Token.Defs.window_check parse_uuid
answered = (_, refl)

home-IsAddr : IsAddr home
home-IsAddr = (omega arith, omega arith, omega arith, omega arith)

ip_response_signed_example :
    (t : IpToken) × (u : Bytes) × (check_ip_token c test_token (key ∷ []) (to_canonical home) 5000
      ≡ Checked.ok t)
    × (parse_uuid t.open_test_uuid ≡ some u)
    × (answered.0.json
        ≡ unsigned_start parsers none (to_canonical home) ++ (signed_end c t home u ++ codes "}"))
ip_response_signed_example =
    ip_response_signed c parsers test_token home (key ∷ []) 5000 none test_token answered.0
      home-IsAddr requested answered.1
