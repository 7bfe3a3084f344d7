-- ===== src/Witness/Servers.antt =====
-- Whole connections, the accept loop, the start and the close event at concrete inputs.
use open_rmbt_server.Common.{
  ℕ, ◌+◌, ◌%◌, ◌≡◌, refl, arith, true, false, none, some, List, [], ◌∷◌, ◌++◌,
}
use open_rmbt_server.Text.{Bytes, codes, starts_with}
use open_rmbt_server.Address.{SocketAddr}
use open_rmbt_server.Config.Defs.{Config, default_config}
use open_rmbt_server.Config.Cli.{parse_cli}
use open_rmbt_server.Io.{Wire, ok, interrupted}
use open_rmbt_server.Io.Tame.{left}
use open_rmbt_server.Stats.{ConnStats, new_stats}
use open_rmbt_server.Tls.{TlsCrates}
use open_rmbt_server.Http.Defs.{eol, target_of}
use open_rmbt_server.IpCheck.Defs as IpEndpoint
use open_rmbt_server.Version.Defs as VersionEndpoint
use open_rmbt_server.Upgrade.Defs.{Upgrade, Env, route}
use open_rmbt_server.Upgrade.Route.{Upgraded, route-Upgraded}
use open_rmbt_server.Server.Defs.{Pool, new_pool}
use open_rmbt_server.Server.Session.{Host, WorkerCtx, Socket, handle_connection}
use open_rmbt_server.Server.Verified.{Verified, handle_connection-Verified}
use open_rmbt_server.Server.Closes.{IsEnd, trail, handle_connection_closes}
use open_rmbt_server.Server.Pool.{Run, stays}
use open_rmbt_server.Server.Accept.{
  accepted, would_block, poll_error, polled, Step, poll, worked, Served, serve,
}
use open_rmbt_server.Server.Loop.{taken_in, serve_refines}
use open_rmbt_server.Server.Startup.{System, Started, new, serving, main}
use open_rmbt_server.Server.Ready.{IsReady, new-IsReady, Behind, main_checks_tokens}
use open_rmbt_server.Events.Bodies.{Floats}
use open_rmbt_server.Witness.Setup.{c, key, home, wire}
use open_rmbt_server.Witness.Sessions.{clock, token, parsers}
use open_rmbt_server.Witness.Parts.{std_parsers}
use open_rmbt_server.Witness.Transfers.{slow, slow-Advances}

abbrev env : Env
env = record { crypto = c; parsers = parsers; version = codes "1.7.0"; branch = codes "dev" }

abbrev host : Host
host = record {
  env = env;
  random = λ i. i % 256;
  unix_now = 5000;
  clock = clock;
  rounds = 90;
  fuel = 90;
}

abbrev ctx : Config → WorkerCtx
ctx config = record { config = config; keys = key ∷ []; has_tls = false; has_sink = true }

abbrev upgrade_request : Bytes
upgrade_request = codes "GET / HTTP/1.1" ++ (eol ++ (codes "Upgrade: rmbt" ++ (eol ++ eol)))

abbrev addr : SocketAddr
addr = record { ip = home; port = 5000 }

abbrev socket : Bytes → Socket
socket input = record {
  wire = slow (upgrade_request ++ input);
  takes_timeout = true;
  starts_tls = true;
}

handle_connection-Verified_example :
    Verified host
      (ctx default_config)
      (some addr)
      (handle_connection host
        (ctx default_config)
        100001
        (socket (codes "TOKEN " ++ (token ++ codes "\nPING\nOK\nQUIT\n")))
        addr
        false).0
handle_connection-Verified_example =
    handle_connection-Verified host (ctx default_config) 100001
      (socket (codes "TOKEN " ++ (token ++ codes "\nPING\nOK\nQUIT\n"))) addr false refl

abbrev unchecked : WorkerCtx
unchecked = ctx (record default_config { check_token = false })

abbrev short : Socket
short = socket (codes "TOKEN x\nPING\nOK\nQUIT\n")

handle_connection_closes_example :
    (end : Bytes) × ((handle_connection host unchecked 100001 short addr false).0.end ≡ some end)
    × IsEnd (handle_connection host unchecked 100001 short addr false).0.greeting end
    × ((handle_connection host unchecked 100001 short addr false).1
        ≡ trail host unchecked 100001 short addr false
            (handle_connection host unchecked 100001 short addr false).0
            end)
unfolding left
handle_connection_closes_example =
    handle_connection_closes host unchecked 100001 short addr false refl (omega arith) (omega arith)
      (slow-Advances 90 (omega arith))

upgraded : (route env upgrade_request false [] [] 5000 (wire [])).0 ≡ ok Upgrade.rmbt
unfolding route IpEndpoint.matches target_of VersionEndpoint.matches open_rmbt_server.Text.contains
    open_rmbt_server.Text.to_ascii_lowercase open_rmbt_server.Upgrade.Defs.upgrade_rmbt
    open_rmbt_server.Io.◌>>=◌ open_rmbt_server.Http.Defs.send open_rmbt_server.Upgrade.Defs.become
upgraded = refl

route-Upgraded_example :
    (IpEndpoint.matches (target_of upgrade_request) ≡ false)
    × (VersionEndpoint.matches (target_of upgrade_request) ≡ false)
    × (starts_with upgrade_request (codes "GET ") ≡ true)
    × Upgraded env upgrade_request []
        (wire [])
        (route env upgrade_request false [] [] 5000 (wire [])).1
route-Upgraded_example = route-Upgraded env upgrade_request false [] [] 5000 (wire []) upgraded

-- An interrupted poll, two connections of which one is dropped by its socket, a worker, the flag.
abbrev script : List Step
script =
    poll (poll_error interrupted)
    ∷ poll (polled false ((0, accepted 7 true ∷ accepted 8 false ∷ would_block ∷ []) ∷ []))
    ∷ worked 0
    ∷ poll (polled true [])
    ∷ []

serve_refines_example :
    (served : Served) × (q : Pool) × (serve (false ∷ []) script (new_pool 2) ≡ some (served, q))
    × Run (new_pool 2) (taken_in script + 0) q
serve_refines_example =
    serve_refines 2 (omega arith) (false ∷ []) script 0 (new_pool 2) ((omega arith, tt), (tt, tt))
      stays

abbrev crates : TlsCrates
crates = record {
  certs = λ b. [];
  pkcs8_private_keys = λ b. [];
  rsa_private_keys = λ b. [];
  accepts = λ cfg. true;
}

abbrev sys : System
sys = record {
  open_file = λ path. some (codes "secret prod\n");
  crates = crates;
  can_bind = λ a. true;
  can_log = true;
  can_syslog = λ a. true;
}

new_started : (s : Started) × (new sys default_config (addr ∷ []) [] true ≡ some s)
unfolding new open_rmbt_server.Config.Keys.read_secret_keys
new_started = (_, refl)

new-IsReady_example : IsReady default_config (addr ∷ []) [] new_started.0
new-IsReady_example = new-IsReady sys default_config (addr ∷ []) [] true new_started.0 new_started.1

main_serving :
    (q : Pool) × (main std_parsers sys none (worked 0 ∷ []) (codes "-l" ∷ codes "5005" ∷ [])
      ≡ serving q)
unfolding main open_rmbt_server.Text.eq_bytes open_rmbt_server.Config.Cli.finish
    open_rmbt_server.Config.Keys.read_secret_keys
main_serving = (_, refl)

main_checks_tokens_example : Behind std_parsers sys (codes "-l" ∷ codes "5005" ∷ [])
unfolding open_rmbt_server.Text.eq_bytes
main_checks_tokens_example =
    main_checks_tokens std_parsers sys none (worked 0 ∷ []) (codes "-l" ∷ codes "5005" ∷ [])
      main_serving.0 (refl, (refl, tt)) main_serving.1

-- Numbers that all print alike.
abbrev floats : Floats
floats = record {
  F = ℕ;
  of_int = λ n. n;
  mul = λ a b. a;
  div = λ a b. a;
  secs = λ n. n;
  fixed = λ v. codes "1.500";
}

abbrev measured : ConnStats
measured = record new_stats {
  download_bytes = 4096;
  download_ns = 1000;
  ping_count = 1;
  ping_min_ns = 5;
  ping_max_ns = 5;
  commands = 2;
}
