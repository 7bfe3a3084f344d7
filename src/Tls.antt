-- ===== src/Tls.antt =====
-- `build_tls_config` of src/tls.rs. The file system, the PEM readers of rustls_pemfile and what
-- rustls accepts are parameters; an opened file is its content.
use open_rmbt_server.Common.{Bool, Option, none, some, List, [], ◌∷◌, if◌then◌else◌, is_empty}
use open_rmbt_server.Text.{Bytes}

pub data PrivateKey : Type 0 where
  pkcs8 pkcs1 : Bytes → PrivateKey

-- What goes into the builder of `rustls::ServerConfig`.
pub record ServerConfig : Type 0 where
  pub tls13_only : Bool
  pub cert_chain : List Bytes
  pub private_key : PrivateKey

-- The PEM readers give what they find in order, `none` for an item that is malformed; `accepts` is
-- the result of `with_single_cert`.
pub record TlsCrates : Type 0 where
  pub certs : Bytes → List (Option Bytes)
  pub pkcs8_private_keys : Bytes → List (Option Bytes)
  pub rsa_private_keys : Bytes → List (Option Bytes)
  pub accepts : ServerConfig → Bool

-- `collect::<Result<_, _>>()`.
unfoldable pub collect : List (Option Bytes) → Option (List Bytes)
collect [] = some []
collect (none ∷ rest) = none
collect (some x ∷ rest) = elim (collect rest) [ none ↦ none | some xs ↦ some (x ∷ xs) ]

-- The first key: PKCS#8 before RSA.
unfoldable pub choose_key : List (Option Bytes) → List (Option Bytes) → Option PrivateKey
choose_key (none ∷ rest) rsa = none
choose_key (some key ∷ rest) rsa = some (pkcs8 key)
choose_key [] (none ∷ rest) = none
choose_key [] (some key ∷ rest) = some (pkcs1 key)
choose_key [] [] = none

module _ (t : TlsCrates) where
  abbrev pub finish_config : ServerConfig → Option ServerConfig
  finish_config cfg = if t.accepts cfg then some cfg else none

  abbrev pub with_key : Bool → List Bytes → Option PrivateKey → Option ServerConfig
  with_key tls13_only chain none = none
  with_key tls13_only chain (some key) =
      finish_config (record { tls13_only = tls13_only; cert_chain = chain; private_key = key })

  abbrev pub with_key_file : Bool → List Bytes → Option Bytes → Option ServerConfig
  with_key_file tls13_only chain none = none
  with_key_file tls13_only chain (some pem) =
      with_key tls13_only chain (choose_key (t.pkcs8_private_keys pem) (t.rsa_private_keys pem))

  abbrev pub with_chain : Bool → Option Bytes → Option (List Bytes) → Option ServerConfig
  with_chain tls13_only key_file none = none
  with_chain tls13_only key_file (some chain) =
      if is_empty chain then none else with_key_file tls13_only chain key_file

  abbrev pub with_files : Bool → Option Bytes → Option Bytes → Option ServerConfig
  with_files tls13_only key_file none = none
  with_files tls13_only key_file (some pem) = with_chain tls13_only key_file (collect (t.certs pem))

  unfoldable pub build_tls_config :
      (Bytes → Option Bytes) → Bytes → Bytes → Bool → Option ServerConfig
  unfolding collect choose_key
  build_tls_config open_file cert_path key_path tls13_only =
      with_files tls13_only (open_file key_path) (open_file cert_path)
