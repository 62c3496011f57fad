-- ===== src/HostAndPort/Order.antt =====
-- The comparisons of HostAndPort.h.
use ezbake_common.Common.{
  ℕ, ◌≡◌, ◌↔◌, ◌≢◌, refl, true, false, not, none, ok, throw, arith, ◌⊎◌, Option-cases, inl, inr,
}
use ezbake_common.HostAndPort.{
  HostAndPort, equal, not_equal, less, has_port, get_port, get_port_or_default, no_port,
}
use ezbake_common.Text.Order.{equal_iff, less-IsOrder}

eq_of_fields : (a b : HostAndPort) → a.host ≡ b.host → a.port ≡ b.port → a ≡ b
eq_of_fields a b p q = λ i. record { host = p i; port = q i }

-- operator== holds exactly between equal values, and operator!= between the others.
equal_lem : (a b : HostAndPort) → ((equal a b ≡ true) ↔ (a ≡ b)) × (not_equal a b ≡ not (equal a b))
unfolding equal not_equal
equal_lem a b = (
  (
    λ h. ground (arith, equal_iff a.host b.host),
    λ e. rw e (ground (arith, equal_iff b.host b.host)),
  ),
  refl,
)

-- operator< holds between a value and itself exactly where it has no port.
pub less_self : (a : HostAndPort) → (less a a ≡ true) ↔ (a.port ≡ none)
unfolding less
less_self a = ground (arith, equal_iff a.host a.host)

-- operator< is transitive.
pub less_trans : (a b c : HostAndPort) → less a b ≡ true → less b c ≡ true → less a c ≡ true
unfolding less
less_trans a b c h g = ground (
  arith,
  equal_iff a.host b.host,
  equal_iff b.host c.host,
  equal_iff a.host c.host,
  less-IsOrder.transitive a.host b.host c.host,
  less-IsOrder.transitive b.host a.host b.host,
  less-IsOrder.irreflexive b.host,
)

-- Between two distinct values operator< holds one way and not the other.
pub less_total : (a b : HostAndPort) → a ≢ b → less a b ≡ not (less b a)
unfolding less
less_total a b n = ground (
  arith,
  equal_iff a.host b.host,
  equal_iff b.host a.host,
  less-IsOrder.connected a.host b.host,
  less-IsOrder.transitive a.host b.host a.host,
  less-IsOrder.irreflexive a.host,
  (λ (p : a.host ≡ b.host). λ (q : a.port ≡ b.port). n (eq_of_fields a b p q)),
)

-- Either there is no port: `getPort` throws, and `getPortOrDefault` returns the default. Or there
-- is one, and both return it.
get_port_or_default_lem :
    (a : HostAndPort) (d : ℕ)
    → ((get_port a ≡ throw no_port) × (has_port a ≡ false) × (get_port_or_default a d ≡ ok d))
      ⊎ ((port : ℕ) × (get_port a ≡ ok port)
          × (has_port a ≡ true)
          × (get_port_or_default a d ≡ ok port))
unfolding get_port get_port_or_default has_port
get_port_or_default_lem a d = elim (Option-cases a.port) [
  | inl e ↦ inl (rw e, rw e, rw e)
  | inr (port, e) ↦ inr (port, rw e, rw e, rw e)
]
