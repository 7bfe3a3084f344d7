-- ===== src/IpCheck/Statuses.antt =====
-- The statuses with which src/ip_check.rs answers a POST.
use open_rmbt_server.Common.{
  ℕ, ◌≡◌, refl, ◌⊎◌, inl, inr, Option, none, some, List, is_empty, Option-cases, Bool-cases,
}
use open_rmbt_server.Text.{Bytes, codes}
use open_rmbt_server.Address.{IpAddr}
use open_rmbt_server.Config.Defs.{SecretKey}
use open_rmbt_server.Crypto.{Crypto}
use open_rmbt_server.Token.Defs.{Checked, IpToken, check_ip_token}
use open_rmbt_server.IpCheck.Defs.{
  Value, null, string, number, boolean, object, Reply, good, refuse, ◌>>=◌, or_forbidden,
  or_malformed, parse_uuid, Parsers, local_text, local_ip, token_text, fields, request, get_member,
  sign, ip_response,
}

-- Refusals are 400 or 403.
abbrev pub IsProper : {A : Type 0} → Reply A → Type 0
IsProper (good a) = Unit
IsProper (refuse status msg) = (status ≡ codes "400 Bad Request") ⊎ (status ≡ codes "403 Forbidden")

module _ {A B : Type 0} where
  >>=-IsProper :
      (r : Reply A) (f : A → Reply B) → IsProper r → ((a : A) → IsProper (f a)) → IsProper (r >>= f)
  >>=-IsProper (good a) f h k = k a
  >>=-IsProper (refuse status msg) f h k = h

local_text-IsProper : (v : Option Value) → IsProper (local_text v)
unfolding local_text
local_text-IsProper none = tt
local_text-IsProper (some null) = tt
local_text-IsProper (some (string s)) = tt
local_text-IsProper (some (number n)) = tt
local_text-IsProper (some (boolean b)) = tt
local_text-IsProper (some (object m)) = inl refl
local_text-IsProper (some other) = inl refl

token_text-IsProper : (v : Option Value) → IsProper (token_text v)
unfolding token_text
token_text-IsProper none = tt
token_text-IsProper (some null) = tt
token_text-IsProper (some (string s)) = tt
token_text-IsProper (some (number n)) = inl refl
token_text-IsProper (some other) = inl refl

module _ (t : Parsers) where
  local_ip-IsProper : (o : Option Bytes) → IsProper (local_ip t o)
  unfolding local_ip
  local_ip-IsProper none = tt
  local_ip-IsProper (some s) = elim (Option-cases (t.parse_ip s)) [
    | inl e ↦ rw (e, local_ip) (inl refl)
    | inr (ip, e) ↦ rw (e, local_ip) tt
  ]

  fields-IsProper : (v : Value) → IsProper (fields t v)
  unfolding fields
  fields-IsProper (object ms) = >>=-IsProper _ _ (local_text-IsProper _) λ text.
      >>=-IsProper _ _ (local_ip-IsProper text)
        λ local. >>=-IsProper _ _ (token_text-IsProper (get_member (codes "token") ms)) λ token. tt
  fields-IsProper null = inl refl
  fields-IsProper other = inl refl

  request-IsProper : (body : Bytes) → IsProper (request t body)
  unfolding request
  request-IsProper body = elim (Bool-cases (is_empty body)) [
    | inl b ↦ rw (b, request) (inl refl)
    | inr b ↦ elim (Option-cases (t.from_slice body)) [
      | inl e ↦ rw (b, e, request) (inl refl)
      | inr (v, e) ↦ rw (b, e, request) (fields-IsProper v)
    ]
  ]

or_forbidden-IsProper : (r : Checked IpToken) → IsProper (or_forbidden r)
or_forbidden-IsProper (Checked.ok a) = tt
or_forbidden-IsProper (Checked.err e) = inr refl

or_malformed-IsProper : (o : Option Bytes) → IsProper (or_malformed o)
or_malformed-IsProper none = inr refl
or_malformed-IsProper (some u) = tt

sign-IsProper :
    (c : Crypto) (token : Option Bytes) (keys : List SecretKey) (now : ℕ) (public : IpAddr)
    → IsProper (sign c token keys now public)
unfolding sign
sign-IsProper c none keys now public = tt
sign-IsProper c (some token) keys now public =
    >>=-IsProper _ _ (or_forbidden-IsProper (check_ip_token c token keys public now))
      λ k. >>=-IsProper _ _ (or_malformed-IsProper (parse_uuid k.open_test_uuid)) λ u. tt

pub ip_response-IsProper :
    (c : Crypto) (t : Parsers) (body : Bytes) (peer : IpAddr) (keys : List SecretKey) (now : ℕ)
    → IsProper (ip_response c t body peer keys now)
unfolding ip_response
ip_response-IsProper c t body peer keys now =
    >>=-IsProper _ _ (request-IsProper t body)
      λ x. >>=-IsProper _ _ (sign-IsProper c x.1 keys now _) λ s. tt
