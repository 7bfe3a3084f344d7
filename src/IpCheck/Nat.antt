-- ===== src/IpCheck/Nat.antt =====
-- `nat_type` of src/ip_check.rs.
use open_rmbt_server.Common.{
  ◌≡◌, refl, ◌↔◌, inl, inr, Bool, true, false, some, ◌++◌, if◌then◌else◌, Bool-cases,
}
use open_rmbt_server.Text.{Bytes, codes, strip_prefix, starts_with}
use open_rmbt_server.Address.{IpAddr, is_ipv4, eq_addr}
use open_rmbt_server.Address.Mapped.{eq_addr_iff}
use open_rmbt_server.IpCheck.Defs.{same, nat_type}

no_nat_prefix :
    (b : Bool)
    → starts_with (codes "no_nat_" ++ (if b then codes "ipv4" else codes "ipv6")) (codes "no_nat_")
      ≡ true
unfolding starts_with strip_prefix
no_nat_prefix b = refl

not_no_nat :
    (b : Bool) (x y : Bytes)
    → starts_with (if b then codes "nat_" ++ x else codes "nat_" ++ y) (codes "no_nat_") ≡ true
    → ⊥
unfolding starts_with strip_prefix
not_no_nat true x y h = absurd (cc h)
not_no_nat false x y h = absurd (cc h)

-- For a known local address the NAT type begins with `no_nat_` exactly if that address is the
-- public one.
pub nat_type_no_nat_iff :
    (local public : IpAddr)
    → (starts_with (nat_type (some local) public) (codes "no_nat_") ≡ true) ↔ (local ≡ public)
unfolding nat_type starts_with strip_prefix
nat_type_no_nat_iff local public = elim (Bool-cases (eq_addr local public)) [
  | inl e ↦ rw e (λ h. (eq_addr_iff local public).0 e, λ h. no_nat_prefix (is_ipv4 public))
  | inr e ↦ rw e (
    λ h. absurd (not_no_nat (same (is_ipv4 local) (is_ipv4 public)) _ _ h),
    λ h. absurd (cc (e, (eq_addr_iff local public).1 h)),
  )
]
