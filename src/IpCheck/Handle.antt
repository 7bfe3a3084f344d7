-- ===== src/IpCheck/Handle.antt =====
-- `handle` of src/ip_check.rs: one request to /ip, answered.
use open_rmbt_server.Common.{
  ℕ, min, Bool, true, false, Option, none, some, List, [], ◌∷◌, ◌++◌, ltb, if◌then◌else◌, length,
  take, is_empty,
}
use open_rmbt_server.Text.{
  Bytes, codes, eq_bytes, split_once, contains, rest_of, split_crlf, to_ascii_lowercase, trim,
  parse_unsigned, u64_max, show,
}
use open_rmbt_server.Address.{IpAddr}
use open_rmbt_server.Config.Defs.{SecretKey}
use open_rmbt_server.Crypto.{Crypto}
use open_rmbt_server.Io.{
  ErrorKind, invalid_data, unexpected_eof, other, ok, err, Io, ◌>>=◌, ◌>>◌, pure, fail,
}
use open_rmbt_server.Http.Defs.{eol, method_of, read_up_to, send, flush}
use open_rmbt_server.IpCheck.Defs.{is_json, Answer, Reply, good, refuse, Parsers, ip_response}

abbrev pub max_body : ℕ
max_body = 8192

abbrev pub max_drain : ℕ
max_drain = 65536

-- What the head says, with the last of several lines of one name.
pub record Headers : Type 0 where
  pub content_length : ℕ
  pub content_type : Bytes
  pub chunked : Bool
  pub origin : Bool
  pub request_headers : Bytes

abbrev pub no_headers : Headers
no_headers = record {
  content_length = 0;
  content_type = [];
  chunked = false;
  origin = false;
  request_headers = [];
}

abbrev set_length : Headers → Option ℕ → Option Headers
set_length h none = none
set_length h (some n) = some (record h { content_length = n })

-- The match on a header's name; `none` is a bad Content-Length.
unfoldable pub header : Bytes → Bytes → Headers → Option Headers
unfolding eq_bytes parse_unsigned to_ascii_lowercase contains
header name value h =
    if eq_bytes name (codes "content-length")
    then set_length h (parse_unsigned u64_max value)
    else if eq_bytes name (codes "content-type")
    then some (record h { content_type = value })
    else if eq_bytes name (codes "transfer-encoding")
    then some (record h { chunked = contains (to_ascii_lowercase value) (codes "chunked") })
    else if eq_bytes name (codes "origin")
    then some (record h { origin = true })
    else if eq_bytes name (codes "access-control-request-headers")
    then some (record h { request_headers = value })
    else some h

abbrev pub header_line : Option (Bytes × Bytes) → Headers → Option Headers
header_line none h = some h
header_line (some (name, value)) h = header (to_ascii_lowercase (trim name)) (trim value) h

-- The loop over the lines of the head.
unfoldable pub parse_headers : List Bytes → Headers → Option Headers
unfolding header split_once trim to_ascii_lowercase
parse_headers [] h = some h
parse_headers (l ∷ ls) h = elim (header_line (split_once (codes ":") l) h) [
  | none ↦ none
  | some h' ↦ parse_headers ls h'
]

abbrev pub or_err : {A : Type 0} → ErrorKind → Option A → Io A
or_err e none = fail e
or_err e (some a) = pure a

-- What is sent: the status line, the extra header lines, the body, and the detail for the log.
pub record Response : Type 0 where
  pub status : Bytes
  pub extra : Bytes
  pub body : Bytes
  pub note : Option Bytes

abbrev pub options_extra : Bytes → Bytes
options_extra request_headers =
    codes "Access-Control-Allow-Methods: POST, OPTIONS"
    ++ (eol
        ++ (codes "Access-Control-Allow-Headers: "
            ++ (request_headers ++ (eol ++ (codes "Access-Control-Max-Age: 1800" ++ eol)))))

-- The address of the client.
unfoldable pub peer_ip : Io IpAddr
peer_ip w = elim w.peer [ none ↦ (err other, w) | some a ↦ (ok a.ip, w) ]

unfoldable pub whole : ℕ → Bytes → Io (Unit {0})
whole n buf = if ltb (length buf) n then fail unexpected_eof else pure tt

module _ (c : Crypto) (t : Parsers) where
  abbrev pub error_response : Bytes → Bytes → Bytes → Response
  error_response status extra msg = record {
    status = status;
    extra = extra;
    body = t.error_body msg;
    note = none;
  }

  abbrev pub answer_response : Reply Answer → Response
  answer_response (good answer) = record {
    status = codes "200 OK";
    extra = [];
    body = answer.json;
    note = some answer.note;
  }
  answer_response (refuse status msg) = error_response status [] msg

  -- A body that arrived whole.
  unfoldable pub answer_body : Headers → Bytes → IpAddr → List SecretKey → ℕ → Response
  unfolding is_json
  answer_body h buf public keys now =
      if is_json h.content_type
      then answer_response (ip_response c t buf public keys now)
      else error_response (codes "415 Unsupported Media Type")
          (codes "Accept: application/json" ++ eol) (codes "Content-Type must be application/json")

  -- POST with a body of an allowed length.
  unfoldable pub post : Headers → List SecretKey → ℕ → Io Response
  post h keys now = do
    buf ← read_up_to h.content_length
    whole h.content_length buf
    public ← peer_ip
    pure (answer_body h buf public keys now)

  -- POST with a body that is too large: a bounded part of it is read and dropped.
  unfoldable pub drain : ℕ → Io Response
  drain content_length = do
    read_up_to (min content_length max_drain)
    pure (error_response (codes "413 Content Too Large") [] (codes "request body too large"))

  -- The match on the method.
  unfoldable pub respond : Bytes → Headers → List SecretKey → ℕ → Io Response
  respond method h keys now =
      if eq_bytes method (codes "OPTIONS")
      then pure (record {
        status = codes "200 OK";
        extra = options_extra h.request_headers;
        body = [];
        note = none;
      })
      else if eq_bytes method (codes "POST")
      then (if h.chunked
          then pure
              (error_response (codes "411 Length Required") [] (codes "Content-Length required"))
          else if ltb max_body h.content_length
          then drain h.content_length
          else post h keys now)
      else pure (record {
        status = codes "405 Method Not Allowed";
        extra = codes "Allow: POST, OPTIONS" ++ eol;
        body = [];
        note = none;
      })

  -- The text of the response.
  unfoldable pub response_text : Bytes → Headers → Response → Bytes
  response_text hsts h r =
      codes "HTTP/1.1 "
      ++ (r.status
          ++ (eol
              ++ (codes "Connection: close"
                  ++ (eol
                      ++ (hsts
                          ++ ((if h.origin
                                then codes "Access-Control-Allow-Origin: *" ++ eol
                                else [])
                              ++ (r.extra
                                  ++ ((if is_empty r.body
                                        then []
                                        else codes "Content-Type: application/json" ++ eol)
                                      ++ (codes
                                            "Cache-Control: no-cache, no-store, max-age=0, must-revalidate"
                                          ++ (eol
                                              ++ (codes "Content-Length: "
                                                  ++ (show (length r.body)
                                                      ++ (eol ++ (eol ++ r.body))))))))))))))

  abbrev pub summary : Bytes → Response → Bytes
  summary method r = elim r.note [
    | some note ↦
        method ++ (codes " /ip -> " ++ (take 3 r.status ++ (codes " (" ++ (note ++ codes ")"))))
    | none ↦ method ++ (codes " /ip -> " ++ take 3 r.status)
  ]

  unfoldable pub handle : Bytes → Bytes → List SecretKey → ℕ → Io Bytes
  handle head hsts keys now = do
    let method = method_of head
    h ← or_err invalid_data (parse_headers (rest_of (split_crlf head)) no_headers)
    r ← respond method h keys now
    send (response_text hsts h r)
    flush
    pure (summary method r)
