-- ===== src/Text/Order.antt =====
-- operator== and operator< of std::string.
use ezbake_common.Common.{
  ◌≡◌, ◌≢◌, ◌↔◌, ◌⊎◌, inl, inr, refl, true, false, [], ◌∷◌, Bytes, arith, Bool-cases,
}
use ezbake_common.Text.{less, equal}
use ezbake_common.StdSet.Laws.{IsOrder}

equal→eq : (s t : Bytes) → equal s t ≡ true → s ≡ t
unfolding equal
equal→eq [] [] h = refl
equal→eq [] (d ∷ t) h = cc
equal→eq (c ∷ s) [] h = cc
equal→eq (c ∷ s) (d ∷ t) h = ground (arith, equal→eq s t)

pub equal_self : (s : Bytes) → equal s s ≡ true
unfolding equal
equal_self [] = refl
equal_self (c ∷ s) = ground (arith, equal_self s)

pub equal-cases : (s t : Bytes) → ((s ≡ t) × (equal s t ≡ true)) ⊎ ((s ≢ t) × (equal s t ≡ false))
equal-cases s t = elim (Bool-cases (equal s t)) [
  | inl h ↦ inl (equal→eq s t h, h)
  | inr h ↦ inr (λ e. let same : equal s t ≡ true = rw e (equal_self t) in cc, h)
]

pub equal_iff : (s t : Bytes) → (equal s t ≡ true) ↔ (s ≡ t)
equal_iff s t = (equal→eq s t, λ e. rw e (equal_self t))

less_self : (s : Bytes) → less s s ≡ false
unfolding less
less_self [] = refl
less_self (c ∷ s) = ground (arith, less_self s)

less_trans : (s t u : Bytes) → less s t ≡ true → less t u ≡ true → less s u ≡ true
unfolding less
less_trans s t [] h g = cc
less_trans s [] (e ∷ u) h g = cc
less_trans [] (d ∷ t) (e ∷ u) h g = refl
less_trans (c ∷ s) (d ∷ t) (e ∷ u) h g = ground (arith, less_trans s t u)

less_connected : (s t : Bytes) → less s t ≡ false → less t s ≡ false → s ≡ t
unfolding less
less_connected [] [] h g = refl
less_connected [] (d ∷ t) h g = cc
less_connected (c ∷ s) [] h g = cc
less_connected (c ∷ s) (d ∷ t) h g = ground (arith, less_connected s t)

-- Strings are totally ordered.
pub less-IsOrder : IsOrder less
less-IsOrder = record {
  irreflexive = less_self;
  transitive = less_trans;
  connected = less_connected;
}
