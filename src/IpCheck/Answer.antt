-- ===== src/IpCheck/Answer.antt =====
-- The answer of `ip_response` in src/ip_check.rs.
use open_rmbt_server.Common.{
  ℕ, ◌≡◌, refl, sym, ap, ◌∙◌, Option, none, some, List, ◌++◌, if◌then◌else◌,
}
use open_rmbt_server.Text.{Bytes, codes, eq_bytes}
use open_rmbt_server.Address.{IpAddr, v4, v6, IsAddr, is_ipv4, to_canonical, mapped_ipv6}
use open_rmbt_server.Address.Mapped.{mapped_ipv6-to_canonical}
use open_rmbt_server.Config.Defs.{SecretKey}
use open_rmbt_server.Crypto.{Crypto}
use open_rmbt_server.Token.Defs.{Checked, IpToken, check_ip_token}
use open_rmbt_server.IpCheck.Defs.{
  Answer, Reply, good, refuse, ◌>>=◌, or_forbidden, or_malformed, parse_uuid, Parsers, request,
  ip_signature, sign, nat_type, bool_text, ip_response,
}

-- A client at an IPv4-mapped IPv6 address gets the answer of the IPv4 address.
pub ip_response_mapped :
    (c : Crypto) (t : Parsers) (body : Bytes) (e f g h : ℕ) (keys : List SecretKey) (now : ℕ)
    → ip_response c t body (v6 (mapped_ipv6 (v4 e f g h))) keys now
      ≡ ip_response c t body (v4 e f g h) keys now
unfolding ip_response to_canonical mapped_ipv6 eq_bytes
ip_response_mapped c t body e f g h keys now = refl

-- The answer before its signature.
abbrev pub unsigned_start : Parsers → Option IpAddr → IpAddr → Bytes
unsigned_start t local public =
    codes "{\"v\":\""
    ++ ((if is_ipv4 public then codes "4" else codes "6")
        ++ (codes "\",\"ip\":\""
            ++ (t.show_ip public
                ++ (codes "\",\"nat_type\":\"" ++ (nat_type local public ++ codes "\"")))))

-- The end of a signed answer.
abbrev pub signed_end : Crypto → IpToken → IpAddr → Bytes → Bytes
signed_end c checked peer uuid =
    codes ",\"matching_ip\":"
    ++ (bool_text checked.matching_ip
        ++ (codes ",\"signature\":\""
            ++ (c.b64_encode (c.hmac_sha256 checked.key.key (mapped_ipv6 peer ++ uuid))
                ++ codes "\"")))

good-injective : {A : Type 0} {a b : A} → good a ≡ good b → a ≡ b
good-injective e = cc e

bind-good :
    {A B : Type 0} (r : Reply A) (f : A → Reply B) (b : B)
    → (r >>= f) ≡ good b
    → (a : A) × (r ≡ good a) × (f a ≡ good b)
bind-good (good a) f b h = (a, refl, h)
bind-good (refuse status msg) f b h = absurd (cc h)

or_forbidden-good : (r : Checked IpToken) (k : IpToken) → or_forbidden r ≡ good k → r ≡ Checked.ok k
or_forbidden-good (Checked.ok a) k h = ap Checked.ok (good-injective h)
or_forbidden-good (Checked.err e) k h = absurd (cc h)

or_malformed-good : (o : Option Bytes) (uuid : Bytes) → or_malformed o ≡ good uuid → o ≡ some uuid
or_malformed-good none uuid h = absurd (cc h)
or_malformed-good (some a) uuid h = ap some (good-injective h)

sign-good :
    (c : Crypto) (token : Bytes) (keys : List SecretKey) (now : ℕ) (public : IpAddr) (a : Answer)
    → sign c (some token) keys now public ≡ good a
    → (checked : IpToken) × (uuid : Bytes) × (check_ip_token c token keys public now
        ≡ Checked.ok checked)
      × (parse_uuid checked.open_test_uuid ≡ some uuid)
      × (a.json ≡ signed_end c checked public uuid)
unfolding sign ip_signature
sign-good c token keys now public a h =
    let (checked, e, h1) =
      bind-good (or_forbidden (check_ip_token c token keys public now)) _ a h in
    let (uuid, f, h2) = bind-good (or_malformed (parse_uuid checked.open_test_uuid)) _ a h1 in
    (
      checked,
      uuid,
      or_forbidden-good _ checked e,
      or_malformed-good _ uuid f,
      sym (ap (λ x. x.json) (good-injective h2)),
    )

signed_end-to_canonical :
    (c : Crypto) (checked : IpToken) (peer : IpAddr) (uuid : Bytes)
    → IsAddr peer
    → signed_end c checked (to_canonical peer) uuid ≡ signed_end c checked peer uuid
signed_end-to_canonical c checked peer uuid i = rw (mapped_ipv6-to_canonical peer i) refl

-- A request with a token is answered only if `check_ip_token` takes the token for the client's
-- address in canonical form and its open test UUID is well formed; the answer then has
-- the fields of an unsigned one, `matching_ip`, and the HMAC-SHA256, under the key of the token, of the client's address as
-- sixteen octets followed by the sixteen of the UUID.
pub ip_response_signed :
    (c : Crypto) (t : Parsers) (body : Bytes) (peer : IpAddr) (keys : List SecretKey) (now : ℕ)
    (local : Option IpAddr) (token : Bytes) (a : Answer)
    → IsAddr peer
    → request t body ≡ good (local, some token)
    → ip_response c t body peer keys now ≡ good a
    → (checked : IpToken) × (uuid : Bytes) × (check_ip_token c token keys (to_canonical peer) now
        ≡ Checked.ok checked)
      × (parse_uuid checked.open_test_uuid ≡ some uuid)
      × (a.json
          ≡ unsigned_start t local (to_canonical peer)
            ++ (signed_end c checked peer uuid ++ codes "}"))
unfolding ip_response
ip_response_signed c t body peer keys now local token a i r h =
    let (signed, e, f) =
      bind-good (sign c (some token) keys now (to_canonical peer)) _ a (rw r at h) in
    let (checked, uuid, k, u, j) = sign-good c token keys now (to_canonical peer) signed e in
    (
      checked,
      uuid,
      k,
      u,
      sym (ap (λ x. x.json) (good-injective f))
          ∙ ap (λ x. unsigned_start t local (to_canonical peer) ++ (x ++ codes "}"))
              (j ∙ signed_end-to_canonical c checked peer uuid i),
    )
