-- ===== src/Crypto.antt =====
-- What the program calls in the crates hmac, sha1, sha2 and base64, as a parameter, with the
-- documented behaviour that theorems rely on.
use open_rmbt_server.Common.{◌≡◌, Option, some, length, All}
use open_rmbt_server.Text.{Bytes}
use open_rmbt_server.Address.{IsByte}
use open_rmbt_server.Text.Search.{Lacks}

pub record Crypto : Type 0 where
  -- key, then message: the message is what all `update` calls pass, in order
  pub hmac_sha1 : Bytes → Bytes → Bytes
  pub hmac_sha256 : Bytes → Bytes → Bytes
  pub sha1 : Bytes → Bytes
  -- the standard alphabet with padding
  pub b64_encode : Bytes → Bytes
  pub b64_decode : Bytes → Option Bytes

-- Output sizes, and what the base64 documentation says of encoding.
pub record CryptoLaws (c : Crypto) : Type 0 where
  pub hmac_sha256_size : (key msg : Bytes) → length (c.hmac_sha256 key msg) ≡ 32
  pub hmac_sha256_bytes : (key msg : Bytes) → All IsByte (c.hmac_sha256 key msg)
  pub decode-encode : (b : Bytes) → All IsByte b → c.b64_decode (c.b64_encode b) ≡ some b
  pub encode-Lacks : (b : Bytes) → Lacks b'#' (c.b64_encode b)
