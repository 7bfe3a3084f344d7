-- ===== src/Config/Cli.antt =====
-- `parse_cli`, `parse_addr` and `parse_syslog_target` of src/config/parser.rs. The parsers of std
-- and of the log crate are parameters.
use open_rmbt_server.Common.{
  ℕ, Option, none, some, List, [], ◌∷◌, ◌++◌, ◌==◌, ◌||◌, if◌then◌else◌, replicate, true, false,
}
use open_rmbt_server.Text.{
  Bytes, codes, eq_bytes, strip_prefix, split_once, trim, parse_unsigned, u16_max, u64_max,
}
use open_rmbt_server.Address.{IpAddr, v4, v6, SocketAddr}
use open_rmbt_server.Config.Defs.{Config, LevelFilter, default_config, default_tls_port}

pub record StdParsers : Type 0 where
  pub socket_addr : Bytes → Option SocketAddr
  pub ip_addr : Bytes → Option IpAddr
  pub ipv4_addr : Bytes → Option IpAddr
  pub ipv6_addr : Bytes → Option IpAddr
  pub level : Bytes → Option LevelFilter

pub record Cli : Type 0 where
  pub config : Config
  pub tcp_addrs : List SocketAddr
  pub tls_addrs : List SocketAddr

-- `Ok(Some(cli))`, `Ok(None)`, an error, or `exit(1)`.
pub data Parsed : Type 0 where
  run : Cli → Parsed
  done failed exit_one : Parsed

-- The text before the last `]`, and what is behind it.
unfoldable pub rsplit : ℕ → Bytes → Option (Bytes × Bytes)
rsplit b [] = none
rsplit b (c ∷ s) = elim (rsplit b s) [
  | some (x, y) ↦ some (c ∷ x, y)
  | none ↦ if c == b then some ([], s) else none
]

abbrev with_port : Option IpAddr → Option ℕ → Option SocketAddr
with_port (some ip) (some port) = some (record { ip = ip; port = port })
with_port _ _ = none

abbrev or_else : Option SocketAddr → Option SocketAddr → Option SocketAddr
or_else none o = o
or_else (some a) o = some a

module _ (t : StdParsers) where
  -- The text between the brackets, and the text behind them.
  abbrev bracketed : Option (Bytes × Bytes) → Option SocketAddr
  bracketed none = none
  bracketed (some (inside, behind)) = elim (strip_prefix (codes ":") behind) [
    | none ↦ none
    | some port_str ↦ with_port (t.ipv6_addr inside) (parse_unsigned u16_max port_str)
  ]

  abbrev v6_port : Bytes → Option SocketAddr
  v6_port [] = none
  v6_port (c ∷ s) = if c == b'[' then bracketed (rsplit b']' s) else none

  abbrev v4_port : Option (Bytes × Bytes) → Option SocketAddr
  v4_port none = none
  v4_port (some (ip_s, port_s)) = with_port (t.ipv4_addr ip_s) (parse_unsigned u16_max port_s)

  unfoldable pub parse_addr : Bytes → Option SocketAddr
  unfolding trim strip_prefix rsplit parse_unsigned split_once
  parse_addr s =
      let s' = trim s in
      or_else (t.socket_addr s') (
        or_else (v6_port s') (
          or_else (v4_port (split_once (codes ":") s'))
            (with_port (some (v4 0 0 0 0)) (parse_unsigned u16_max s'))))

  unfoldable pub parse_syslog_target : Bytes → Option SocketAddr
  unfolding trim
  parse_syslog_target s =
      let s' = trim s in or_else (t.socket_addr s') (with_port (t.ip_addr s') (some 514))

-- What one flag does: with the next argument, without one, or an end.
pub data Action : Type 0 where
  with_value : (Bytes → Option Cli) → Action
  plain : Cli → Action
  stop : Parsed → Action

abbrev pub set_config : Cli → Config → Cli
set_config cli config = record cli { config = config }

abbrev pub map_some : {A : Type 0} → (A → Cli) → Option A → Option Cli
map_some f none = none
map_some f (some a) = some (f a)

-- The default listen addresses.
abbrev or_default : List SocketAddr → List SocketAddr
or_default [] =
    record { ip = v6 (replicate 16 0); port = default_tls_port }
    ∷ record { ip = v4 0 0 0 0; port = default_tls_port }
    ∷ []
or_default (a ∷ rest) = a ∷ rest

unfoldable pub finish : Cli → Cli
finish cli = record cli { tls_addrs = or_default cli.tls_addrs }

module _ (t : StdParsers) where
  unfoldable pub action : Bytes → Cli → Action
  unfolding parse_addr parse_syslog_target
  action arg cli =
      let config = cli.config in
      if eq_bytes arg (codes "-l")
      then with_value
          (λ v. map_some (λ a. record cli { tcp_addrs = cli.tcp_addrs ++ a ∷ [] }) (parse_addr t v))
      else if eq_bytes arg (codes "-L")
      then with_value
          (λ v. map_some (λ a. record cli { tls_addrs = cli.tls_addrs ++ a ∷ [] }) (parse_addr t v))
      else if eq_bytes arg (codes "-c")
      then with_value (λ v. some (set_config cli (record config { cert_path = some v })))
      else if eq_bytes arg (codes "-k")
      then with_value (λ v. some (set_config cli (record config { key_path = some v })))
      else if eq_bytes arg (codes "--tls13-only")
      then plain (set_config cli (record config { tls13_only = true }))
      else if eq_bytes arg (codes "--hsts")
      then plain (set_config cli (record config { hsts = true }))
      else if eq_bytes arg (codes "-S")
      then with_value (λ v. some (set_config cli (record config { secret_key_path = v })))
      else if eq_bytes arg (codes "-t")
      then with_value (λ v.
        map_some (λ n. set_config cli (record config { num_workers = n }))
          (parse_unsigned u64_max v))
      else if eq_bytes arg (codes "-log")
      then with_value
          (λ v. map_some (λ l. set_config cli (record config { log_level = l })) (t.level v))
      else if eq_bytes arg (codes "-s")
      then plain cli
      else if eq_bytes arg (codes "--no-token-check")
      then plain (set_config cli (record config { check_token = false }))
      else if eq_bytes arg (codes "--v2-only")
      then plain (set_config cli (record config { v2_only = true }))
      else if eq_bytes arg (codes "--syslog")
      then with_value (λ v.
        map_some (λ a. set_config cli (record config { syslog_target = some a }))
          (parse_syslog_target t v))
      else if eq_bytes arg (codes "--log-full-ip")
      then plain (set_config cli (record config { log_full_ip = true }))
      else if eq_bytes arg (codes "--help")
          || eq_bytes arg (codes "-h")
          || (eq_bytes arg (codes "-v") || eq_bytes arg (codes "--version"))
      then stop done
      else stop exit_one

  -- The loop over the arguments. A flag at the end whose value is missing is passed over.
  unfoldable pub parse_args : List Bytes → Cli → Parsed
  unfolding action
  parse_args [] cli = run (finish cli)
  parse_args (arg ∷ []) cli = elim (action arg cli) [
    | with_value f ↦ run (finish cli)
    | plain cli' ↦ run (finish cli')
    | stop r ↦ r
  ]
  parse_args (arg ∷ v ∷ args) cli = elim (action arg cli) [
    | with_value f ↦ elim (f v) [ none ↦ failed | some cli' ↦ parse_args args cli' ]
    | plain cli' ↦ parse_args (v ∷ args) cli'
    | stop r ↦ r
  ]

  unfoldable pub parse_cli : List Bytes → Parsed
  unfolding parse_args
  parse_cli args =
      parse_args args (record { config = default_config; tcp_addrs = []; tls_addrs = [] })
