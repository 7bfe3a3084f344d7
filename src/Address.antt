-- ===== src/Address.antt =====
-- `std::net::IpAddr` and `SocketAddr`, as far as the program computes with them
-- (src/protocol/token.rs `mapped_ipv6`, src/ip_check.rs `is_ip_local` and `nat_type`,
-- src/server/mod.rs `anonymise_addr`).
pub mod Mapped
use open_rmbt_server.Common.{
  ℕ, zero, suc, ◌+◌, ◌-◌, ◌*◌, ◌/◌, ◌%◌, ◌^◌, ◌≤◌, ◌<◌, min, max, ◌≡◌, refl, sym, ap, ◌∙◌, subst,
  ◌≢◌, ◌↔◌, ◌⊎◌, inl, inr, Bool, true, false, not, ◌&&◌, ◌||◌, Option, none, some, List, [], ◌∷◌,
  ◌++◌, map, reverse, append-nil, append_assoc, arith, ltb, leb, ◌==◌, if◌then◌else◌, within,
  ltb→lt, lt→ltb, leb→le, ==_iff, Bool-cases, Option-cases, length, get_elem?, get_or, take, drop,
  replicate, is_empty, length-append, take-append-drop, take-append_exact, drop-append_exact,
  length-take, length-drop, length-replicate, All, All-append, all, find,
}
use open_rmbt_server.Int.{
  ℤ, pos, negsuc, pos_part, neg_part, sub_ℕ, ◌+ℤ◌, ◌-ℤ◌, ◌≤ℤ◌, ◌<ℤ◌, ltb_ℤ, +ℤ_parts, -ℤ_parts,
  eq_of_parts, int_laws,
}
use open_rmbt_server.Text.{
  Bytes, codes, eq_bytes, strip_prefix, is_some, starts_with, split_once, contains, splitn, split,
  next_or, rest_of, split_crlf, lower, to_ascii_lowercase, eq_ignore_ascii_case, pop_if, lines,
  is_white, trim_start, trim_end, trim, is_digit, parse_digits, non_empty_digits, parse_unsigned,
  parse_i64, u16_max, u32_max, u64_max, show, show_ℤ,
}

-- An address by its octets: four, or a list of sixteen.
pub data IpAddr : Type 0 where
  v4 : ℕ → ℕ → ℕ → ℕ → IpAddr
  v6 : Bytes → IpAddr

pub record SocketAddr : Type 0 where
  pub ip : IpAddr
  pub port : ℕ

abbrev pub IsByte : ℕ → Type 0
IsByte b = b < 256

-- What the type in the source guarantees.
abbrev pub IsAddr : IpAddr → Type 0
IsAddr (v4 a b c d) = IsByte a × IsByte b × IsByte c × IsByte d
IsAddr (v6 o) = (length o ≡ 16) × All IsByte o

abbrev pub is_ipv4 : IpAddr → Bool
is_ipv4 (v4 _ _ _ _) = true
is_ipv4 (v6 _) = false

-- The first twelve octets of `::ffff:a.b.c.d`.
abbrev pub mapped_prefix : Bytes
mapped_prefix = 0 ∷ 0 ∷ 0 ∷ 0 ∷ 0 ∷ 0 ∷ 0 ∷ 0 ∷ 0 ∷ 0 ∷ 0xff ∷ 0xff ∷ []

-- `IpAddr::to_canonical`.
unfoldable pub to_canonical : IpAddr → IpAddr
unfolding eq_bytes
to_canonical (v4 a b c d) = v4 a b c d
to_canonical (v6 o) =
    if eq_bytes (take 12 o) mapped_prefix
    then v4 (get_or o 12 0) (get_or o 13 0) (get_or o 14 0) (get_or o 15 0)
    else v6 o

-- `mapped_ipv6`: the 16 octets of an address as IPv6.
unfoldable pub mapped_ipv6 : IpAddr → Bytes
mapped_ipv6 (v6 o) = o
mapped_ipv6 (v4 a b c d) = let m = replicate 10 0 ++ 0xff ∷ 0xff ∷ [] in m ++ a ∷ b ∷ c ∷ d ∷ []

-- `segments()[i]`, big-endian pairs of octets.
abbrev pub segment : Bytes → ℕ → ℕ
segment o i = get_or o (2 * i) 0 * 256 + get_or o (2 * i + 1) 0

-- `==` on addresses.
unfoldable pub eq_addr : IpAddr → IpAddr → Bool
unfolding eq_bytes
eq_addr (v4 a b c d) (v4 e f g h) = a == e && b == f && c == g && d == h
eq_addr (v6 o) (v6 p) = eq_bytes o p
eq_addr _ _ = false
