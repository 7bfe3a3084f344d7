-- ===== src/Upgrade/Defs.antt =====
-- `detect_and_upgrade` of src/stream/websocket_upgrade.rs. The stream that it returns is the wire,
-- with its kind set. What the build and the crates give is a parameter.
use open_rmbt_server.Common.{
  ℕ, Bool, not, Option, none, some, List, [], ◌∷◌, ◌++◌, if◌then◌else◌, length,
}
use open_rmbt_server.Text.{
  Bytes, codes, starts_with, split_once, contains, to_ascii_lowercase, lines, trim, show,
}
use open_rmbt_server.Config.Defs.{SecretKey, hsts_header}
use open_rmbt_server.Crypto.{Crypto}
use open_rmbt_server.Utf8.{from_utf8_lossy}
use open_rmbt_server.Io.{invalid_data, StreamKind, raw, websocket, ok, Io, ◌>>=◌, ◌>>◌, pure, fail}
use open_rmbt_server.Http.Defs.{eol, read_head, target_of, send, flush, ignore, close}
use open_rmbt_server.IpCheck.Defs.{Parsers}
use open_rmbt_server.IpCheck.Defs as IpEndpoint
use open_rmbt_server.IpCheck.Handle as IpHandle
use open_rmbt_server.Version.Defs as VersionEndpoint

abbrev pub ws_guid : Bytes
ws_guid = codes "258EAFA5-E914-47DA-95CA-C5AB0DC85B11"

pub data Upgrade : Type 0 where
  rmbt : Upgrade
  ip_check version : Bytes → Upgrade

-- What the build and the crates give: the hash functions, the parsers, and RMBTD_VERSION and
-- RMBTD_BRANCH.
pub record Env : Type 0 where
  pub crypto : Crypto
  pub parsers : Parsers
  pub version : Bytes
  pub branch : Bytes

-- Promotion to a stream of a kind.
unfoldable pub become : StreamKind → Io Upgrade
become kind w = (ok Upgrade.rmbt, record w { kind = kind })

-- The `find_map` over the lines of the request.
unfoldable pub websocket_key : List Bytes → Option Bytes
unfolding to_ascii_lowercase starts_with split_once trim
websocket_key [] = none
websocket_key (l ∷ ls) =
    let later = websocket_key ls in
    if starts_with (to_ascii_lowercase l) (codes "sec-websocket-key:")
    then elim (split_once (codes ":") l) [ none ↦ none | some (name, value) ↦ some (trim value) ]
    else later

abbrev pub switching : Bytes
switching =
    codes "HTTP/1.1 101 Switching Protocols" ++ (eol ++ (codes "Connection: Upgrade" ++ eol))

unfoldable pub websocket_response : Bytes → Bytes → Bytes
websocket_response accept hsts =
    switching
    ++ (codes "Upgrade: websocket"
        ++ (eol ++ (codes "Sec-WebSocket-Accept: " ++ (accept ++ (eol ++ (hsts ++ eol))))))

unfoldable pub rmbt_response : Bytes → Bytes
rmbt_response hsts = switching ++ (codes "Upgrade: RMBT" ++ (eol ++ (hsts ++ eol)))

unfoldable pub method_response : Bytes → Bytes
method_response hsts =
    codes "HTTP/1.1 405 Method Not Allowed"
    ++ (eol
        ++ (codes "Connection: close"
            ++ (eol ++ (hsts ++ (codes "Content-Length: 0" ++ (eol ++ eol))))))

unfoldable pub upgrade_response : Bytes → Bytes → Bytes
unfolding trim
upgrade_response build hsts =
    let text =
      codes "RMBT measurement server - " ++ trim (codes "RMBTv" ++ (build ++ codes "\n")) in
    codes "HTTP/1.1 426 Upgrade Required"
    ++ (eol
        ++ (codes "Connection: close"
            ++ (eol
                ++ (codes "Upgrade: RMBT, websocket"
                    ++ (eol
                        ++ (hsts
                            ++ (codes "Content-Type: text/plain"
                                ++ (eol
                                    ++ (codes "Content-Length: "
                                        ++ (show (length text) ++ (eol ++ (eol ++ text))))))))))))

-- An answer whose errors are ignored, and then the error.
unfoldable pub refuse : Bytes → Io Upgrade
refuse text = do ignore (send text); ignore flush; fail invalid_data

unfoldable pub upgrade_rmbt : Bytes → Io Upgrade
upgrade_rmbt hsts = do send (rmbt_response hsts); become raw

module _ (env : Env) where
  -- The handshake behind its key.
  unfoldable pub accept_key : Bytes → Option Bytes → Io Upgrade
  accept_key hsts none = fail invalid_data
  accept_key hsts (some key) = do
    send (websocket_response (env.crypto.b64_encode (env.crypto.sha1 (key ++ ws_guid))) hsts)
    flush
    become websocket

  unfoldable pub websocket_handshake : Bytes → Bytes → Io Upgrade
  websocket_handshake request hsts = accept_key hsts (websocket_key (lines request))

  unfoldable pub ip_request : Bytes → Bool → Bytes → List SecretKey → ℕ → Io Upgrade
  ip_request req is_tls hsts keys now = do
    summary ← IpHandle.handle env.crypto env.parsers req hsts keys now
    close is_tls
    pure (Upgrade.ip_check summary)

  unfoldable pub version_request : Bytes → Bool → Bytes → Io Upgrade
  version_request req is_tls hsts = do
    summary ← VersionEndpoint.handle env.version env.branch req hsts
    close is_tls
    pure (Upgrade.version summary)

  -- What follows the head; `req` is its text.
  unfoldable pub route : Bytes → Bool → Bytes → List SecretKey → ℕ → Io Upgrade
  route req is_tls hsts keys now =
      if IpEndpoint.matches (target_of req)
      then ip_request req is_tls hsts keys now
      else if VersionEndpoint.matches (target_of req)
      then version_request req is_tls hsts
      else if not (starts_with req (codes "GET "))
      then refuse (method_response hsts)
      else if contains (to_ascii_lowercase req) (codes "upgrade: websocket")
      then websocket_handshake req hsts
      else if contains (to_ascii_lowercase req) (codes "upgrade: rmbt")
      then upgrade_rmbt hsts
      else refuse (upgrade_response env.version hsts)

  abbrev pub hsts_line : Bool → Bytes
  hsts_line add_hsts = if add_hsts then hsts_header else []

  -- `now` is the clock in the check of a token sent to /ip; `is_tls` tells what the transport is.
  unfoldable pub detect_and_upgrade : Bool → Bool → List SecretKey → ℕ → Io Upgrade
  detect_and_upgrade is_tls add_hsts keys now = do
    head ← read_head
    route (from_utf8_lossy head) is_tls (hsts_line add_hsts) keys now
