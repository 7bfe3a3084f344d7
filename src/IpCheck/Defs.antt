-- ===== src/IpCheck/Defs.antt =====
-- src/ip_check.rs: the parts of the answer. What serde_json and std make of text is a parameter.
use open_rmbt_server.Common.{
  ℕ, ◌+◌, ◌-◌, ◌*◌, ◌/◌, Bool, true, false, not, ◌&&◌, ◌||◌, Option, none, some, List, [], ◌∷◌,
  ◌++◌, ◌==◌, if◌then◌else◌, within, length, get_or, replicate, is_empty,
}
use open_rmbt_server.Text.{
  Bytes, codes, eq_bytes, starts_with, split, next_or, eq_ignore_ascii_case, trim,
}
use open_rmbt_server.Address.{IpAddr, v4, v6, is_ipv4, segment, eq_addr, to_canonical, mapped_ipv6}
use open_rmbt_server.Config.Defs.{SecretKey}
use open_rmbt_server.Crypto.{Crypto}
use open_rmbt_server.Token.Defs.{
  TokenResult, too_early, too_late, parse_error, Checked, IpToken, check_ip_token,
}

unfoldable pub matches : Bytes → Bool
unfolding eq_bytes starts_with
matches target = eq_bytes target (codes "/ip") || starts_with target (codes "/ip?")

unfoldable pub is_json : Bytes → Bool
unfolding split trim eq_ignore_ascii_case
is_json content_type =
    eq_ignore_ascii_case (trim (next_or [] (split b';' content_type))) (codes "application/json")

-- `is_loopback() || is_link_local() || is_private()` for IPv4.
abbrev pub is_v4_local : ℕ → ℕ → Bool
is_v4_local a b =
    a == 127
    || (a == 169 && b == 254)
    || (a == 10 || (a == 172 && within 16 31 b) || (a == 192 && b == 168))

abbrev pub v6_loopback : Bytes
v6_loopback = replicate 15 0 ++ 1 ∷ []

unfoldable pub is_ip_local : IpAddr → Bool
unfolding eq_bytes
is_ip_local (v4 a b c d) = is_v4_local a b
is_ip_local (v6 o) =
    let prefix = segment o 0 / 0x40 * 0x40 in
    eq_bytes o v6_loopback || prefix == 0xfe80 || prefix == 0xfec0

abbrev pub version : IpAddr → Bytes
version ip = if is_ipv4 ip then codes "ipv4" else codes "ipv6"

abbrev pub scope : IpAddr → Bytes
scope ip = if is_ip_local ip then codes "local" else codes "public"

-- `==` on `bool`.
abbrev pub same : Bool → Bool → Bool
same true b = b
same false b = not b

unfoldable pub nat_type : Option IpAddr → IpAddr → Bytes
unfolding eq_addr is_ip_local
nat_type none public = codes "is_" ++ version public
nat_type (some local) public =
    if eq_addr local public
    then codes "no_nat_" ++ version public
    else if same (is_ipv4 local) (is_ipv4 public)
    then codes "nat_"
      ++ (scope local ++ (codes "_to_" ++ (scope public ++ (b'_' ∷ version public))))
    else codes "nat_"
      ++ (version local ++ (codes "_to_" ++ (scope public ++ (b'_' ∷ version public))))

-- One hexadecimal digit, of either case.
unfoldable pub hex_value : ℕ → Option ℕ
hex_value c =
    if within b'0' b'9' c
    then some (c - b'0')
    else if within b'a' b'f' c
    then some (c - b'a' + 10)
    else if within b'A' b'F' c
    then some (c - b'A' + 10)
    else none

-- The bytes without the dashes.
unfoldable pub without_dashes : Bytes → Bytes
without_dashes [] = []
without_dashes (c ∷ s) = let rest = without_dashes s in if c == b'-' then rest else c ∷ rest

abbrev pub push_byte : Option ℕ → Option ℕ → Option Bytes → Option Bytes
push_byte (some a) (some b) (some out) = some ((a * 16 + b) ∷ out)
push_byte _ _ _ = none

-- `hex.chunks(2)`, each as a byte; `none` for what is no hexadecimal digit.
unfoldable pub hex_pairs : Bytes → Option Bytes
unfolding hex_value
hex_pairs [] = some []
hex_pairs (a ∷ []) = none
hex_pairs (a ∷ b ∷ s) = push_byte (hex_value a) (hex_value b) (hex_pairs s)

unfoldable pub parse_uuid : Bytes → Option Bytes
unfolding without_dashes hex_pairs
parse_uuid s =
    let hex = without_dashes s in
    let dashes =
      get_or s 8 0 == b'-'
      && get_or s 13 0 == b'-'
      && get_or s 18 0 == b'-'
      && get_or s 23 0 == b'-' in
    if length s == 36 && dashes && length hex == 32 then hex_pairs hex else none

-- The message for a token that is refused.
unfoldable pub token_error : TokenResult → Bytes
token_error parse_error = codes "invalid token: malformed"
token_error (too_early reason) = codes "invalid token: " ++ reason
token_error (too_late reason) = codes "invalid token: " ++ reason
token_error _ = codes "invalid token"

-- `serde_json::Value`; a number is its text.
mutual
  pub data Value : Type 0 where
    null : Value
    boolean : Bool → Value
    number string : Bytes → Value
    array : Values → Value
    object : Members → Value

  pub data Values : Type 0 where
    no_values : Values
    and_value : Value → Values → Values

  pub data Members : Type 0 where
    no_members : Members
    and_member : Bytes → Value → Members → Members

-- `obj.get(name)`, where the names differ.
unfoldable pub get_member : Bytes → Members → Option Value
unfolding eq_bytes
get_member name no_members = none
get_member name (and_member n v ms) =
    let later = get_member name ms in if eq_bytes n name then some v else later

pub record Answer : Type 0 where
  pub json : Bytes
  pub note : Bytes

-- `Result<_, IpError>`: an error is a status line and a message.
pub data Reply (A : Type 0) : Type 0 where
  good : A → Reply A
  refuse : Bytes → Bytes → Reply A

infixl 5 ◌>>=◌
abbrev pub ◌>>=◌ : {A B : Type 0} → Reply A → (A → Reply B) → Reply B
good a >>= f = f a
refuse status msg >>= f = refuse status msg

abbrev pub bad_request : {A : Type 0} → Bytes → Reply A
bad_request msg = refuse (codes "400 Bad Request") msg

abbrev pub forbidden : {A : Type 0} → Bytes → Reply A
forbidden msg = refuse (codes "403 Forbidden") msg

abbrev blank_or : Bytes → Option Bytes
blank_or s = if is_empty (trim s) then none else some s

abbrev pub bool_text : Bool → Bytes
bool_text true = codes "true"
bool_text false = codes "false"

-- The text of `client_ip_local`.
unfoldable pub local_text : Option Value → Reply (Option Bytes)
unfolding trim
local_text none = good none
local_text (some null) = good none
local_text (some (string s)) = good (blank_or s)
local_text (some (number n)) = good (some n)
local_text (some (boolean b)) = good (some (bool_text b))
local_text (some _) = bad_request (codes "Invalid request format: client_ip_local must be a string")

unfoldable pub token_text : Option Value → Reply (Option Bytes)
unfolding trim
token_text none = good none
token_text (some null) = good none
token_text (some (string s)) = good (blank_or s)
token_text (some _) = bad_request (codes "Invalid request format: token must be a string")

-- What std and serde_json do with text.
pub record Parsers : Type 0 where
  pub from_slice : Bytes → Option Value
  pub parse_error_text : Bytes → Bytes
  pub parse_ip : Bytes → Option IpAddr
  pub show_ip : IpAddr → Bytes
  -- `json!({ "error": [msg] }).to_string()`
  pub error_body : Bytes → Bytes

module _ (t : Parsers) where
  unfoldable pub local_ip : Option Bytes → Reply (Option IpAddr)
  unfolding to_canonical
  local_ip none = good none
  local_ip (some s) = elim (t.parse_ip s) [
    | none ↦ bad_request (codes "client_ip_local must be valid IP address")
    | some ip ↦ good (some (to_canonical ip))
  ]

  -- The request: the local address and the token.
  unfoldable pub fields : Value → Reply (Option IpAddr × Option Bytes)
  unfolding local_ip local_text token_text get_member
  fields (object ms) = do
    text ← local_text (get_member (codes "client_ip_local") ms)
    local ← local_ip text
    token ← token_text (get_member (codes "token") ms)
    good (local, token)
  fields _ = bad_request (codes "Invalid request format: expected a JSON object")

  unfoldable pub request : Bytes → Reply (Option IpAddr × Option Bytes)
  request body =
      if is_empty body
      then bad_request (codes "Required request body is missing")
      else elim (t.from_slice body) [
        | none ↦ bad_request (codes "Invalid request format: " ++ t.parse_error_text body)
        | some v ↦ fields v
      ]

-- `check_ip_token`, with an error as the 403 answer.
abbrev pub or_forbidden : Checked IpToken → Reply IpToken
or_forbidden (Checked.ok checked) = good checked
or_forbidden (Checked.err rejected) = forbidden (token_error rejected)

abbrev pub or_malformed : Option Bytes → Reply Bytes
or_malformed none = forbidden (codes "invalid token: malformed open test UUID")
or_malformed (some uuid) = good uuid

module _ (c : Crypto) where
  unfoldable pub ip_signature : Bytes → IpAddr → Bytes → Bytes
  ip_signature key ip open_test_uuid = c.hmac_sha256 key (mapped_ipv6 ip ++ open_test_uuid)

  -- The end of the JSON object and of the note.
  unfoldable pub sign : Option Bytes → List SecretKey → ℕ → IpAddr → Reply Answer
  sign none keys now public = good (record { json = []; note = codes ", no token, unsigned" })
  sign (some token) keys now public = do
    checked ← or_forbidden (check_ip_token c token keys public now)
    uuid ← or_malformed (parse_uuid checked.open_test_uuid)
    let signature = ip_signature checked.key.key public uuid
    let matching = bool_text checked.matching_ip
    good (record {
      json =
          codes ",\"matching_ip\":"
          ++ (matching ++ (codes ",\"signature\":\"" ++ (c.b64_encode signature ++ codes "\"")));
      note =
          codes ", key '"
          ++ (checked.key.label ++ (codes "', matching_ip=" ++ (matching ++ codes ", signed")));
    })

  -- `now` is the clock in the call of `check_ip_token`.
  unfoldable pub ip_response : Parsers → Bytes → IpAddr → List SecretKey → ℕ → Reply Answer
  ip_response t body peer keys now = do
    (local, token) ← request t body
    let public = to_canonical peer
    let kind = nat_type local public
    let v = if is_ipv4 public then codes "4" else codes "6"
    let json =
        codes "{\"v\":\""
        ++ (v
            ++ (codes "\",\"ip\":\""
                ++ (t.show_ip public ++ (codes "\",\"nat_type\":\"" ++ (kind ++ codes "\"")))))
    signed ← sign token keys now public
    good (record { json = json ++ (signed.json ++ codes "}"); note = kind ++ signed.note })
