-- ===== src/Server/Ready.antt =====
-- What a server of src/main.rs and src/server/mod.rs has when it starts to accept.
use open_rmbt_server.Common.{
  ◌<◌, ◌≡◌, refl, sym, ap, ◌∙◌, subst, inl, inr, Bool, true, false, not, ◌&&◌, Option, none, some,
  List, [], ◌∷◌, arith, if◌then◌else◌, Bool-cases, Option-cases, length, is_empty, All,
}
use open_rmbt_server.Text.{Bytes, codes, eq_bytes, lines}
use open_rmbt_server.Address.{SocketAddr}
use open_rmbt_server.Config.Defs.{Config, SecretKey}
use open_rmbt_server.Config.Keys.{read_secret_keys, push_keys}
use open_rmbt_server.Config.Cli.{StdParsers, Cli, Parsed, parse_cli}
use open_rmbt_server.Config.Secure.{parse_cli_secure}
use open_rmbt_server.Io.{ErrorKind}
use open_rmbt_server.Tls.{ServerConfig}
use open_rmbt_server.Server.Defs.{Pool, new_pool}
use open_rmbt_server.Server.Accept.{Step}
use open_rmbt_server.Server.Startup.{
  System, Started, load_keys, bind_listeners, bind_tls, has_cfg, spawn, bind_both, with_keys, new,
  serving, open_sink, with_sink, launch, is_off, accept_loop, start_with, main,
}

-- A server that was started for a configuration.
pub record IsReady (config : Config) (tcp_addrs tls_addrs : List SocketAddr) (s : Started)
    : Type 0 where
  pub config_kept : s.ctx.config ≡ config
  pub pool : s.pool ≡ new_pool config.num_workers
  pub keys : config.check_token ≡ true → 0 < length s.ctx.keys
  pub tcp : s.tcp_listeners ≡ tcp_addrs
  pub tls : s.tls_listeners ≡ (if s.ctx.has_tls then tls_addrs else [])

some_inj : {A : Type 0} {a b : A} → some a ≡ some b → a ≡ b
some_inj e = cc e

bind_listeners-all :
    (can_bind : SocketAddr → Bool) (addrs ls : List SocketAddr)
    → bind_listeners can_bind addrs ≡ some ls
    → ls ≡ addrs
unfolding bind_listeners
bind_listeners-all can_bind [] ls e = sym (some_inj e)
bind_listeners-all can_bind (a ∷ addrs) ls e = elim (Bool-cases (can_bind a)) [
  | inr b ↦ absurd (cc (rw (b, bind_listeners) at e))
  | inl b ↦ elim (Option-cases (bind_listeners can_bind addrs)) [
    | inl n ↦ absurd (cc (rw (b, n, bind_listeners) at e))
    | inr (rest, n) ↦
        sym (some_inj (rw (b, n, bind_listeners) at e))
        ∙ ap (◌∷◌ a) (bind_listeners-all can_bind addrs rest n)
  ]
]

keys_of_content :
    (keys : List SecretKey) (found : List SecretKey)
    → (if is_empty keys then none else some keys) ≡ some found
    → 0 < length found
keys_of_content [] found e = absurd (cc e)
keys_of_content (k ∷ keys) found e = subst (λ l. 0 < length l) (some_inj e) (omega arith)

read_secret_keys-some :
    (content : Option Bytes) (keys : List SecretKey)
    → read_secret_keys content ≡ some keys
    → 0 < length keys
unfolding read_secret_keys
read_secret_keys-some none keys e = absurd (cc e)
read_secret_keys-some (some content) keys e = keys_of_content (push_keys (lines content) []) keys e

load_keys-checked :
    (config : Config) (o : Option (List SecretKey)) (keys : List SecretKey)
    → ((l : List SecretKey) → o ≡ some l → 0 < length l)
    → config.check_token ≡ true
    → load_keys config o ≡ some keys
    → 0 < length keys
unfolding load_keys
load_keys-checked config (some l) keys h c e = subst (λ l. 0 < length l) (some_inj e) (h l refl)
load_keys-checked config none keys h c e = absurd (cc (rw c at e))

module _ (sys : System) (config : Config) (tcp_addrs tls_addrs : List SocketAddr)
    (has_sink : Bool) where
  spawn-IsReady :
      (keys : List SecretKey) (tls : Option ServerConfig) (tcp_ls : List SocketAddr)
      (o : Option (List SocketAddr)) (s : Started)
      → (config.check_token ≡ true → 0 < length keys)
      → tcp_ls ≡ tcp_addrs
      → ((ls : List SocketAddr) → o ≡ some ls → ls ≡ (if has_cfg tls then tls_addrs else []))
      → spawn config has_sink keys tls tcp_ls o ≡ some s
      → IsReady config tcp_addrs tls_addrs s
  spawn-IsReady keys tls tcp_ls none s h t u e = absurd (cc e)
  spawn-IsReady keys tls tcp_ls (some ls) s h t u e =
      subst (IsReady config tcp_addrs tls_addrs) (some_inj e)
        (record { config_kept = refl; pool = refl; keys = h; tcp = t; tls = u ls refl })

  bound_tls :
      (tls : Option ServerConfig) (ls : List SocketAddr)
      → bind_tls sys tls_addrs tls ≡ some ls
      → ls ≡ (if has_cfg tls then tls_addrs else [])
  bound_tls none ls e = sym (some_inj e)
  bound_tls (some cfg) ls e = bind_listeners-all sys.can_bind tls_addrs ls e

  bind_both-IsReady :
      (keys : List SecretKey) (tls : Option ServerConfig) (o : Option (List SocketAddr))
      (s : Started)
      → (config.check_token ≡ true → 0 < length keys)
      → ((ls : List SocketAddr) → o ≡ some ls → ls ≡ tcp_addrs)
      → bind_both sys config has_sink tls_addrs keys tls o ≡ some s
      → IsReady config tcp_addrs tls_addrs s
  bind_both-IsReady keys tls none s h t e = absurd (cc e)
  bind_both-IsReady keys tls (some ls) s h t e =
      spawn-IsReady keys tls ls _ s h (t ls refl) (bound_tls tls) e

  with_keys-IsReady :
      (o : Option (List SecretKey)) (s : Started)
      → ((keys : List SecretKey) → o ≡ some keys → config.check_token ≡ true → 0 < length keys)
      → with_keys sys config tcp_addrs tls_addrs has_sink o ≡ some s
      → IsReady config tcp_addrs tls_addrs s
  with_keys-IsReady none s h e = absurd (cc e)
  with_keys-IsReady (some keys) s h e =
      bind_both-IsReady keys _ _ s (h keys refl) (bind_listeners-all sys.can_bind tcp_addrs) e

  -- When `Server::new` succeeds, the workers run with the given configuration, one empty queue for
  -- each; with token checking on there is at least one key; every TCP address is bound, and every
  -- TLS address if and only if there is a TLS configuration.
  pub new-IsReady :
      (s : Started)
      → new sys config tcp_addrs tls_addrs has_sink ≡ some s
      → IsReady config tcp_addrs tls_addrs s
  unfolding new
  new-IsReady s e =
      with_keys-IsReady _ s
        (λ keys f c.
          load_keys-checked config _ keys
            (read_secret_keys-some (sys.open_file config.secret_key_path)) c f)
        e

with_sink-IsReady :
    (sys : System) (cli : Cli) (o : Option Bool) (s : Started)
    → with_sink sys cli o ≡ some s
    → IsReady cli.config cli.tcp_addrs cli.tls_addrs s
with_sink-IsReady sys cli none s e = absurd (cc e)
with_sink-IsReady sys cli (some has_sink) s e =
    new-IsReady sys cli.config cli.tcp_addrs cli.tls_addrs has_sink s e

launch-IsReady :
    (sys : System) (cli : Cli) (s : Started)
    → launch sys cli ≡ some s
    → IsReady cli.config cli.tcp_addrs cli.tls_addrs s
unfolding launch
launch-IsReady sys cli s e = go (not (is_off cli.config.log_level) && not sys.can_log) e
  where
    go :
        (b : Bool)
        → (if b then none else with_sink sys cli (open_sink sys cli.config.syslog_target)) ≡ some s
        → IsReady cli.config cli.tcp_addrs cli.tls_addrs s
    go true f = absurd (cc f)
    go false f = with_sink-IsReady sys cli _ s f

-- What stands behind a process in its accept loop.
pub record Behind (std : StdParsers) (sys : System) (args : List Bytes) : Type 0 where
  pub cli : Cli
  pub started : Started
  pub parsed : parse_cli std args ≡ Parsed.run cli
  pub launched : launch sys cli ≡ some started
  pub checks : started.ctx.config.check_token ≡ true
  pub has_key : 0 < length started.ctx.keys

module _ (std : StdParsers) (sys : System) (setup : Option ErrorKind) (steps : List Step)
    (args : List Bytes) (q : Pool)
    (others : All (λ arg. eq_bytes arg (codes "--no-token-check") ≡ false) args) where
  launched-Behind :
      (cli : Cli) (o : Option Started)
      → parse_cli std args ≡ Parsed.run cli
      → launch sys cli ≡ o
      → accept_loop setup steps o ≡ serving q
      → Behind std sys args
  launched-Behind cli none p l e = absurd (cc e)
  launched-Behind cli (some s) p l e =
      let r = launch-IsReady sys cli s l in
      let c = parse_cli_secure std args cli others p in
      record {
        cli = cli;
        started = s;
        parsed = p;
        launched = l;
        checks = ap (λ c. c.check_token) r.config_kept ∙ c;
        has_key = r.keys c;
      }

  parsed-Behind :
      (r : Parsed)
      → parse_cli std args ≡ r
      → start_with sys setup steps r ≡ serving q
      → Behind std sys args
  parsed-Behind Parsed.done p e = absurd (cc e)
  parsed-Behind Parsed.failed p e = absurd (cc e)
  parsed-Behind Parsed.exit_one p e = absurd (cc e)
  parsed-Behind (Parsed.run cli) p e = launched-Behind cli _ p refl e

  -- A process that was started without the argument --no-token-check and is in its accept loop has
  -- started its workers with token checking on and with at least one secret key.
  pub main_checks_tokens : main std sys setup steps args ≡ serving q → Behind std sys args
  unfolding main
  main_checks_tokens e = parsed-Behind _ refl e
