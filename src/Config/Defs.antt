-- ===== src/Config/Defs.antt =====
-- src/config/constants.rs and src/config/mod.rs.
use open_rmbt_server.Common.{ℕ, Bool, true, false, Option, none}
use open_rmbt_server.Text.{Bytes, codes}
use open_rmbt_server.Address.{SocketAddr}

abbrev pub default_tls_port : ℕ
default_tls_port = 443

abbrev pub hsts_header : Bytes
hsts_header = codes "Strict-Transport-Security: max-age=31536000\r\n"

abbrev pub chunk_size_default : ℕ
chunk_size_default = 4096

abbrev pub min_chunk_size : ℕ
min_chunk_size = 4096

abbrev pub max_chunk_size : ℕ
max_chunk_size = 4194304

abbrev pub max_chunks : ℕ
max_chunks = 300000

abbrev pub max_seconds : ℕ
max_seconds = 30

abbrev pub max_line_length : ℕ
max_line_length = 1024

abbrev pub max_accept_early : ℕ
max_accept_early = 20

abbrev pub max_accept_late : ℕ
max_accept_late = 90

pub record SecretKey : Type 0 where
  pub key : Bytes
  pub label : Bytes

-- `log::LevelFilter`.
pub data LevelFilter : Type 0 where
  off error warn info debug trace : LevelFilter

pub record Config : Type 0 where
  pub cert_path : Option Bytes
  pub key_path : Option Bytes
  pub tls13_only : Bool
  pub hsts : Bool
  pub num_workers : ℕ
  pub secret_key_path : Bytes
  pub check_token : Bool
  pub v2_only : Bool
  pub log_level : LevelFilter
  pub syslog_target : Option SocketAddr
  pub log_full_ip : Bool

-- `Config::default()`.
abbrev pub default_config : Config
default_config = record {
  cert_path = none;
  key_path = none;
  tls13_only = false;
  hsts = false;
  num_workers = 200;
  secret_key_path = codes "secret.key";
  check_token = true;
  v2_only = false;
  log_level = LevelFilter.off;
  syslog_target = none;
  log_full_ip = false;
}
