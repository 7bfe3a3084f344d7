-- ===== src/Witness/Parts.antt =====
-- The other theorems at concrete inputs.
use open_rmbt_server.Common.{
  ℕ, ◌%◌, ◌≡◌, refl, ◌≢◌, true, false, none, some, List, [], ◌∷◌, ◌++◌, arith, ltb, All, all,
}
use open_rmbt_server.Text.{Bytes, codes, eq_bytes}
use open_rmbt_server.Address.{v6, IsByte, mapped_ipv6}
use open_rmbt_server.Config.Defs.{LevelFilter}
use open_rmbt_server.Config.Cli.{StdParsers, Cli, Parsed, run, parse_cli}
use open_rmbt_server.Config.Secure.{parse_cli_secure}
use open_rmbt_server.Stats.{new_stats}
use open_rmbt_server.Utf8.{is_utf8, from_utf8_lossy, from_utf8_lossy-is_utf8}
use open_rmbt_server.Io.{panic}
use open_rmbt_server.Commands.Defs.{run_commands}
use open_rmbt_server.Commands.Keeps.{InRange}
use open_rmbt_server.Commands.Safe.{run_commands_safe}
use open_rmbt_server.Server.Defs.{Job, Pool, new_worker, new_pool, dispatch_connection}
use open_rmbt_server.Server.Pool.{Run, stays, accepts, works, IsPool}
use open_rmbt_server.Server.Accounts.{kept, count, accepted, Run-accounted}
use open_rmbt_server.Events.Escape.{json_escape}
use open_rmbt_server.Events.RoundTrip.{in_text, read_string, read_string-json_escape}
use open_rmbt_server.IpCheck.Defs.{Parsers, object, no_members, ip_response, parse_uuid}
use open_rmbt_server.IpCheck.Answer.{ip_response_mapped}
use open_rmbt_server.Io.{Wire}
use open_rmbt_server.Http.Uses.{Used}
use open_rmbt_server.IpCheck.Handle.{handle}
use open_rmbt_server.IpCheck.Reads.{handle-Used}
use open_rmbt_server.IpCheck.Uuid.{show_uuid, parse_uuid-show_uuid}
use open_rmbt_server.Witness.Setup.{c, key, home, wire}

run_commands_safe_example :
    InRange
      (run_commands 2 2 (λ i. i % 256) new_stats (wire (codes "PING\nOK\nQUIT\n"))).1.chunk_size
    × ((run_commands 2 2 (λ i. i % 256) new_stats (wire (codes "PING\nOK\nQUIT\n"))).0 ≢ panic)
run_commands_safe_example =
    run_commands_safe 2 2 (λ i. i % 256) new_stats (wire (codes "PING\nOK\nQUIT\n"))

one_accepted : Pool
one_accepted = record {
  workers =
      record { queue = Job.connection 7 false ∷ []; handled = []; conn_seq = 0 } ∷ new_worker ∷ [];
  next_worker = 1;
  dropped = [];
}

one-Run : Run (new_pool 2) 1 one_accepted
unfolding new_pool dispatch_connection one_accepted
one-Run = accepts 7 false stays refl

one_handled : Pool
unfolding open_rmbt_server.Server.Defs.set_worker one_accepted
one_handled = record one_accepted {
  workers =
      open_rmbt_server.Server.Defs.set_worker 0
        (record { queue = []; handled = (7, 1) ∷ []; conn_seq = 1 }) one_accepted.workers;
}

handled-Run : Run (new_pool 2) 1 one_handled
unfolding one_handled one_accepted open_rmbt_server.Server.Defs.work
handled-Run = works 0 one-Run refl refl

Run-accounted_example :
    IsPool 2 1 one_handled × ((c : ℕ) → kept c one_handled ≡ count c (accepted handled-Run))
Run-accounted_example = Run-accounted 2 1 one_handled handled-Run

abbrev text : Bytes
text = 34 ∷ 92 ∷ 10 ∷ 1 ∷ codes "abc"

read_string-json_escape_example :
    read_string in_text (json_escape text ++ 34 ∷ codes ",") ≡ some (text, codes ",")
read_string-json_escape_example = read_string-json_escape text (codes ",")

abbrev open_uuid : Bytes
open_uuid =
    0xf7 ∷ 0x1d ∷ 0x53 ∷ 0xf4 ∷ 0xc6 ∷ 0x7c ∷ 0x4b ∷ 0x99 ∷ 0xb3 ∷ 0x19 ∷ 0x97 ∷ 0x9f ∷ 0x71 ∷ 0x4c
    ∷ 0xd4 ∷ 0x08 ∷ []

are_bytes : (s : Bytes) → all (λ b. ltb b 256) s ≡ true → All IsByte s
are_bytes [] h = tt
are_bytes (x ∷ xs) h = (ground arith, are_bytes xs (ground arith))

parse_uuid-show_uuid_example : parse_uuid (show_uuid open_uuid) ≡ some open_uuid
parse_uuid-show_uuid_example = parse_uuid-show_uuid open_uuid refl (are_bytes open_uuid refl)

abbrev parsers : Parsers
parsers = record {
  from_slice = λ b. some (object no_members);
  parse_error_text = λ b. [];
  parse_ip = λ b. some home;
  show_ip = λ ip. codes "10.0.0.7";
  error_body = λ m. m;
}

ip_response_mapped_example :
    ip_response c parsers (codes "{}") (v6 (mapped_ipv6 home)) (key ∷ []) 5000
    ≡ ip_response c parsers (codes "{}") home (key ∷ []) 5000
ip_response_mapped_example = ip_response_mapped c parsers (codes "{}") 10 0 0 7 (key ∷ []) 5000

abbrev post_head : Bytes
post_head = codes "POST /ip HTTP/1.1\r\nContent-Length: 2\r\n\r\n"

abbrev answered : Wire
answered = (handle c parsers post_head [] (key ∷ []) 5000 (wire (codes "{} GET"))).1

handle-Used_example : Used 65536 1 (wire (codes "{} GET")) answered
unfolding open_rmbt_server.Http.Defs.method_of eq_bytes
handle-Used_example = handle-Used c parsers (key ∷ []) 5000 post_head [] (wire (codes "{} GET"))

abbrev pub std_parsers : StdParsers
std_parsers = record {
  socket_addr = λ s. none;
  ip_addr = λ s. some home;
  ipv4_addr = λ s. some home;
  ipv6_addr = λ s. none;
  level = λ s. some LevelFilter.info;
}

abbrev args : List Bytes
args = codes "-t" ∷ codes "50" ∷ codes "--v2-only" ∷ []

abbrev parsed : Parsed
parsed = parse_cli std_parsers args

v2_cli : (cli : Cli) × (parse_cli std_parsers args ≡ run cli)
unfolding parse_cli eq_bytes
v2_cli = (_, refl)

parse_cli_secure_example : v2_cli.0.config.check_token ≡ true
unfolding eq_bytes
parse_cli_secure_example =
    parse_cli_secure std_parsers args v2_cli.0 (refl, (refl, (refl, tt))) v2_cli.1

from_utf8_lossy-is_utf8_example : from_utf8_lossy (0xc3 ∷ 0xa9 ∷ 97 ∷ []) ≡ 0xc3 ∷ 0xa9 ∷ 97 ∷ []
from_utf8_lossy-is_utf8_example = from_utf8_lossy-is_utf8 (0xc3 ∷ 0xa9 ∷ 97 ∷ []) valid
  where
    valid : is_utf8 (0xc3 ∷ 0xa9 ∷ 97 ∷ []) ≡ true
    valid = unfold is_utf8 in refl
