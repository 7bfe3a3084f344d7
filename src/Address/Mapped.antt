-- ===== src/Address/Mapped.antt =====
-- The 16-octet form of an address.
use open_rmbt_server.Common.{
  ◌≡◌, refl, sym, ap, ◌∙◌, ◌↔◌, inl, inr, true, [], ◌∷◌, ◌++◌, arith, Bool-cases, length, get_or,
  take,
}
use open_rmbt_server.Text.{Bytes, eq_bytes}
use open_rmbt_server.Text.Search.{eq_bytes_iff}
use open_rmbt_server.Address.{
  IpAddr, v4, v6, IsAddr, mapped_prefix, to_canonical, mapped_ipv6, eq_addr,
}

pub eq_addr_iff : (x y : IpAddr) → (eq_addr x y ≡ true) ↔ (x ≡ y)
unfolding eq_addr
eq_addr_iff (v4 a b c d) (v4 e f g h) = ground arith
eq_addr_iff (v6 o) (v6 p) = ground (arith, eq_bytes_iff o p)
eq_addr_iff (v4 a b c d) (v6 o) = ground arith
eq_addr_iff (v6 o) (v4 a b c d) = ground arith

pub length-mapped_ipv6 : (ip : IpAddr) → IsAddr ip → length (mapped_ipv6 ip) ≡ 16
unfolding mapped_ipv6
length-mapped_ipv6 (v4 a b c d) h = refl
length-mapped_ipv6 (v6 o) h = h.0

-- A list of sixteen is its first twelve and the last four.
sixteen :
    (o : Bytes)
    → length o ≡ 16
    → o ≡ take 12 o ++ (get_or o 12 0 ∷ get_or o 13 0 ∷ get_or o 14 0 ∷ get_or o 15 0 ∷ [])
sixteen (a ∷ b ∷ c ∷ d ∷ e ∷ f ∷ g ∷ h ∷ i ∷ j ∷ k ∷ l ∷ m ∷ n ∷ q ∷ p ∷ []) same = refl
sixteen _ same = absurd (omega arith)

-- An address whose octets are bytes has the same sixteen octets as its canonical form, so that
-- the two give the same HMACs.
pub mapped_ipv6-to_canonical :
    (ip : IpAddr) → IsAddr ip → mapped_ipv6 (to_canonical ip) ≡ mapped_ipv6 ip
unfolding mapped_ipv6 to_canonical
mapped_ipv6-to_canonical (v4 a b c d) h = refl
mapped_ipv6-to_canonical (v6 o) h = elim (Bool-cases (eq_bytes (take 12 o) mapped_prefix)) [
  | inl e ↦ rw e (
      let rest = get_or o 12 0 ∷ get_or o 13 0 ∷ get_or o 14 0 ∷ get_or o 15 0 ∷ [] in
      ap (λ p. p ++ rest) (sym ((eq_bytes_iff (take 12 o) mapped_prefix).0 e))
      ∙ sym (sixteen o h.0))
  | inr e ↦ rw e refl
]
