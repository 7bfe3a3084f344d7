-- ===== src/Events/Escape.antt =====
-- src/events.rs: `json_escape`, the JSON object builder, the bodies of `connect` and `auth`, and the
-- RFC 5424 frame. The socket and the clock are not modelled.
use open_rmbt_server.Common.{
  ℕ, ◌+◌, ◌-◌, ◌*◌, ◌/◌, ◌%◌, Bool, Option, none, some, [], ◌∷◌, ◌++◌, ltb, ◌==◌, if◌then◌else◌,
}
use open_rmbt_server.Int.{ℤ, pos}
use open_rmbt_server.Text.{Bytes, codes, eq_bytes, show, show_ℤ}

-- A digit of `{:04x}`.
abbrev pub hex_digit : ℕ → ℕ
hex_digit n = if ltb n 10 then b'0' + n else b'a' + (n - 10)

-- What one byte becomes; a byte of a longer UTF-8 sequence stays.
unfoldable pub escape_byte : ℕ → Bytes
escape_byte c =
    if c == 34
    then 92 ∷ 34 ∷ []
    else if c == 92
    then 92 ∷ 92 ∷ []
    else if c == 10
    then 92 ∷ b'n' ∷ []
    else if c == 13
    then 92 ∷ b'r' ∷ []
    else if c == 9
    then 92 ∷ b't' ∷ []
    else if ltb c 32
    then 92 ∷ b'u' ∷ b'0' ∷ b'0' ∷ hex_digit (c / 16) ∷ hex_digit (c % 16) ∷ []
    else c ∷ []

unfoldable pub json_escape : Bytes → Bytes
unfolding escape_byte
json_escape [] = []
json_escape (c ∷ s) = escape_byte c ++ json_escape s

-- The builder: `sep`, `key`, and a field of each kind.
unfoldable pub sep : Bytes → Bytes
sep [] = b',' ∷ []
sep (c ∷ []) = if c == b'{' then c ∷ [] else c ∷ b',' ∷ []
sep (c ∷ d ∷ s) = c ∷ sep (d ∷ s)

unfoldable pub json_key : Bytes → Bytes → Bytes
unfolding json_escape
json_key json k = json ++ (34 ∷ (json_escape k ++ (34 ∷ b':' ∷ [])))

unfoldable pub json_str : Bytes → Bytes → Bytes → Bytes
unfolding json_escape sep json_key
json_str json k v = json_key (sep json) k ++ (34 ∷ (json_escape v ++ (34 ∷ [])))

unfoldable pub json_int : Bytes → Bytes → ℤ → Bytes
unfolding sep json_key
json_int json k v = json_key (sep json) k ++ show_ℤ v

unfoldable pub json_bool : Bytes → Bytes → Bool → Bytes
unfolding sep json_key
json_bool json k v = json_key (sep json) k ++ (if v then codes "true" else codes "false")

abbrev pub json_done : Bytes → Bytes
json_done json = json ++ b'}' ∷ []

-- The body of `connect`; `conn_id` is below 2^63.
unfoldable pub connect_body : ℕ → Bytes → Bool → Bytes
unfolding json_str json_int json_bool
connect_body conn_id client tls = json_done (
    json_bool
      (json_str
        (json_int (json_str (codes "{") (codes "event") (codes "connect")) (codes "conn")
          (pos conn_id))
        (codes "client") client)
      (codes "tls") tls)

abbrev severity_info : ℕ
severity_info = 6

abbrev severity_notice : ℕ
severity_notice = 5

abbrev maybe_str : Bytes → Bytes → Option Bytes → Bytes
maybe_str json k none = json
maybe_str json k (some v) = json_str json k v

-- The severity and the body of `auth`.
unfoldable pub auth_body :
    ℕ → Bytes → Bytes → Bytes → Bytes → Option Bytes → Option Bytes → ℕ × Bytes
unfolding json_str json_int
auth_body conn_id client uuid token_type result label reason =
    let j1 =
      json_int (json_str (codes "{") (codes "event") (codes "auth")) (codes "conn") (pos conn_id) in
    let j2 = json_str (json_str j1 (codes "client") client) (codes "uuid") uuid in
    let j3 = json_str (json_str j2 (codes "token") token_type) (codes "result") result in
    let j4 = maybe_str (maybe_str j3 (codes "secret") label) (codes "reason") reason in
    (if eq_bytes result (codes "rejected") then severity_notice else severity_info, json_done j4)

-- The frame of `emit`, from the time stamp, the host name and the process id.
unfoldable pub frame : Bytes → Bytes → ℕ → ℕ → Bytes → Bytes → Bytes
frame timestamp hostname procid severity msgid body =
    codes "<"
    ++ (show (16 * 8 + severity)
        ++ (codes ">1 "
            ++ (timestamp
                ++ (b' '
                    ∷ (hostname
                        ++ (codes " rmbtd "
                            ++ (show procid ++ (b' ' ∷ (msgid ++ (codes " - " ++ body))))))))))
