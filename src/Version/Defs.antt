-- ===== src/Version/Defs.antt =====
-- src/version.rs. `version` and `branch` are RMBTD_VERSION and RMBTD_BRANCH, set by the build.
use open_rmbt_server.Common.{
  Bool, false, ◌||◌, none, some, List, [], ◌∷◌, ◌++◌, if◌then◌else◌, length, take, is_empty,
}
use open_rmbt_server.Text.{
  Bytes, codes, eq_bytes, starts_with, split_once, rest_of, split_crlf, eq_ignore_ascii_case, trim,
  show,
}
use open_rmbt_server.Io.{Io, ◌>>◌, pure}
use open_rmbt_server.Http.Defs.{eol, method_of, send, flush}

unfoldable pub matches : Bytes → Bool
unfolding eq_bytes starts_with
matches target = eq_bytes target (codes "/version") || starts_with target (codes "/version?")

unfoldable pub version_text : Bytes → Bytes → Bytes
version_text version branch =
    if is_empty branch then b'v' ∷ version else b'v' ∷ (version ++ (b'(' ∷ (branch ++ codes ")")))

abbrev pub body : Bytes → Bytes → Bytes
body version branch = codes "{\"version\":\"" ++ (version_text version branch ++ codes "\"}")

-- Is this header line `Origin`?
unfoldable pub is_origin : Bytes → Bool
unfolding split_once trim eq_ignore_ascii_case
is_origin line = elim (split_once (codes ":") line) [
  | none ↦ false
  | some (name, value) ↦ eq_ignore_ascii_case (trim name) (codes "origin")
]

-- `iter.any`.
unfoldable pub any_origin : List Bytes → Bool
unfolding is_origin
any_origin [] = false
any_origin (l ∷ ls) = is_origin l || any_origin ls

pub record Reply : Type 0 where
  pub status : Bytes
  pub extra : Bytes
  pub body : Bytes

unfoldable pub reply_to : Bytes → Bytes → Bytes → Reply
unfolding eq_bytes version_text
reply_to version branch method =
    if eq_bytes method (codes "GET")
    then record {
      status = codes "200 OK";
      extra = codes "Content-Type: application/json" ++ eol;
      body = body version branch;
    }
    else record {
      status = codes "405 Method Not Allowed";
      extra = codes "Allow: GET" ++ eol;
      body = [];
    }

-- The text of the response.
unfoldable pub response : Bytes → Bytes → Reply → Bytes
response hsts cors r =
    codes "HTTP/1.1 "
    ++ (r.status
        ++ (eol
            ++ (codes "Connection: close"
                ++ (eol
                    ++ (hsts
                        ++ (cors
                            ++ (r.extra
                                ++ (codes "Content-Length: "
                                    ++ (show (length r.body) ++ (eol ++ (eol ++ r.body)))))))))))

abbrev pub cors_line : Bool → Bytes
cors_line origin = if origin then codes "Access-Control-Allow-Origin: *" ++ eol else []

unfoldable pub handle : Bytes → Bytes → Bytes → Bytes → Io Bytes
unfolding reply_to response any_origin split_crlf method_of send flush show
handle version branch head hsts = do
  let method = method_of head
  let r = reply_to version branch method
  send (response hsts (cors_line (any_origin (rest_of (split_crlf head)))) r)
  flush
  pure (method ++ (codes " /version -> " ++ take 3 r.status))
