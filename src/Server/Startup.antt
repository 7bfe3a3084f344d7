-- ===== src/Server/Startup.antt =====
-- `Server::new` of src/server/mod.rs, and `run` of src/main.rs up to the accept loop. What the
-- system answers is a parameter; the log lines are not modelled.
use open_rmbt_server.Common.{
  ℕ, Bool, true, false, not, ◌&&◌, Option, none, some, List, [], ◌∷◌, if◌then◌else◌, length,
}
use open_rmbt_server.Text.{Bytes}
use open_rmbt_server.Address.{SocketAddr}
use open_rmbt_server.Config.Defs.{Config, SecretKey, LevelFilter}
use open_rmbt_server.Config.Keys.{read_secret_keys}
use open_rmbt_server.Config.Cli.{StdParsers, Cli, Parsed, parse_cli}
use open_rmbt_server.Io.{ErrorKind, ok, err, panic, stuck}
use open_rmbt_server.Tls.{TlsCrates, ServerConfig, build_tls_config}
use open_rmbt_server.Server.Defs.{Pool, new_pool}
use open_rmbt_server.Server.Session.{WorkerCtx}
use open_rmbt_server.Server.Accept.{Step, Ran, panicked, running, returned, run}

-- The file system, the addresses that can be bound, and whether the logger and the syslog socket
-- can be set up.
pub record System : Type 0 where
  pub open_file : Bytes → Option Bytes
  pub crates : TlsCrates
  pub can_bind : SocketAddr → Bool
  pub can_log : Bool
  pub can_syslog : SocketAddr → Bool

-- What `Server::new` gives: the workers' context, the queues, and the listeners.
pub record Started : Type 0 where
  pub ctx : WorkerCtx
  pub pool : Pool
  pub tcp_listeners : List SocketAddr
  pub tls_listeners : List SocketAddr

-- The keys; without token checking a file that cannot be read gives none.
unfoldable pub load_keys : Config → Option (List SecretKey) → Option (List SecretKey)
load_keys config (some keys) = some keys
load_keys config none = if not config.check_token then some [] else none

-- The TLS configuration, if a certificate and a key are configured and good.
unfoldable pub load_tls : System → Config → Option Bytes → Option Bytes → Option ServerConfig
unfolding build_tls_config
load_tls sys config (some cert) (some key) =
    build_tls_config sys.crates sys.open_file cert key config.tls13_only
load_tls sys config (some cert) none = none
load_tls sys config none key = none

-- The loop over the addresses: all of them, or the error.
unfoldable pub bind_listeners : (SocketAddr → Bool) → List SocketAddr → Option (List SocketAddr)
bind_listeners can_bind [] = some []
bind_listeners can_bind (a ∷ addrs) =
    let rest = bind_listeners can_bind addrs in
    if can_bind a then elim rest [ none ↦ none | some ls ↦ some (a ∷ ls) ] else none

-- The TLS listeners are bound only with a TLS configuration.
abbrev pub bind_tls : System → List SocketAddr → Option ServerConfig → Option (List SocketAddr)
bind_tls sys addrs none = some []
bind_tls sys addrs (some cfg) = bind_listeners sys.can_bind addrs

abbrev pub has_cfg : Option ServerConfig → Bool
has_cfg none = false
has_cfg (some cfg) = true

abbrev pub spawn :
    Config
    → Bool
    → List SecretKey
    → Option ServerConfig
    → List SocketAddr
    → Option (List SocketAddr)
    → Option Started
spawn config has_sink keys tls tcp_ls none = none
spawn config has_sink keys tls tcp_ls (some tls_ls) = some (record {
  ctx = record { config = config; keys = keys; has_tls = has_cfg tls; has_sink = has_sink };
  pool = new_pool config.num_workers;
  tcp_listeners = tcp_ls;
  tls_listeners = tls_ls;
})

abbrev pub bind_both :
    System
    → Config
    → Bool
    → List SocketAddr
    → List SecretKey
    → Option ServerConfig
    → Option (List SocketAddr)
    → Option Started
bind_both sys config has_sink tls_addrs keys tls none = none
bind_both sys config has_sink tls_addrs keys tls (some tcp_ls) =
    spawn config has_sink keys tls tcp_ls (bind_tls sys tls_addrs tls)

abbrev pub with_keys :
    System
    → Config
    → List SocketAddr
    → List SocketAddr
    → Bool
    → Option (List SecretKey)
    → Option Started
with_keys sys config tcp_addrs tls_addrs has_sink none = none
with_keys sys config tcp_addrs tls_addrs has_sink (some keys) =
    bind_both sys config has_sink tls_addrs keys
      (load_tls sys config config.cert_path config.key_path) (bind_listeners sys.can_bind tcp_addrs)

unfoldable pub new : System → Config → List SocketAddr → List SocketAddr → Bool → Option Started
unfolding load_keys load_tls bind_listeners new_pool
new sys config tcp_addrs tls_addrs has_sink =
    with_keys sys config tcp_addrs tls_addrs has_sink
      (load_keys config (read_secret_keys (sys.open_file config.secret_key_path)))

-- A process: gone with an exit code, gone with a panic, or in the accept loop.
pub data Process : Type 0 where
  exited : ℕ → Process
  crashed : Process
  serving : Pool → Process

unfoldable pub is_off : LevelFilter → Bool
is_off LevelFilter.off = true
is_off _ = false

-- Is there a sink, if the syslog target can be used?
abbrev pub open_sink : System → Option SocketAddr → Option Bool
open_sink sys none = some false
open_sink sys (some target) = if sys.can_syslog target then some true else none

abbrev pub with_sink : System → Cli → Option Bool → Option Started
with_sink sys cli none = none
with_sink sys cli (some has_sink) = new sys cli.config cli.tcp_addrs cli.tls_addrs has_sink

-- From the command line to the started server; `none` is the exit with code 1.
unfoldable pub launch : System → Cli → Option Started
unfolding is_off new
launch sys cli =
    if not (is_off cli.config.log_level) && not sys.can_log
    then none
    else with_sink sys cli (open_sink sys cli.config.syslog_target)

abbrev pub exit_of : Ran → Process
exit_of panicked = crashed
exit_of (running p) = serving p
exit_of (returned (ok _) p) = exited 0
exit_of (returned (err e) p) = exited 1
exit_of (returned panic p) = crashed
exit_of (returned stuck p) = crashed

abbrev pub accept_loop : Option ErrorKind → List Step → Option Started → Process
accept_loop setup steps none = exited 1
accept_loop setup steps (some s) =
    exit_of (run setup (length s.tcp_listeners) (length s.tls_listeners) steps s.pool)

abbrev pub start_with : System → Option ErrorKind → List Step → Parsed → Process
start_with sys setup steps Parsed.done = exited 0
start_with sys setup steps Parsed.failed = exited 1
start_with sys setup steps Parsed.exit_one = exited 1
start_with sys setup steps (Parsed.run cli) = accept_loop setup steps (launch sys cli)

-- `main`, on the arguments behind the program's name.
unfoldable pub main : StdParsers → System → Option ErrorKind → List Step → List Bytes → Process
unfolding parse_cli launch run
main std sys setup steps args = start_with sys setup steps (parse_cli std args)
