-- ===== src/Java/Sets.antt =====
-- A set operation that meets the interface of EzProperties/Merging, on lists.
use mathlib.Core.List.{mem-cons_self, mem-cons_of_mem, not-mem-nil, eq-or-mem_of_mem-cons}
use mathlib.Core.HLevel.{⊥_prop}
use mathlib.Core.Logic.Or
use ezbake_common.Common.{
  ◌≡◌, ◌↔◌, ◌⊎◌, inl, inr, refl, Bool, true, false, List, [], ◌∷◌, Mem, if◌then◌else◌,
}
use ezbake_common.Java.EzProperties.Merging.{Sets}
use ezbake_common.Java.{Chars}
use ezbake_common.Text
use ezbake_common.Text.Order.{equal-cases}

unfoldable pub contains : Chars → List Chars → Bool
unfolding Text.equal
contains key [] = false
contains key (k ∷ ks) = let rest = contains key ks in if Text.equal key k then true else rest

unfoldable pub intersection : List Chars → List Chars → List Chars
unfolding contains
intersection [] other = []
intersection (key ∷ keys) other =
    let rest = intersection keys other in if contains key other then key ∷ rest else rest

contains-Mem :
    (key : Chars) (ks : List Chars)
    → ((contains key ks ≡ true) × Mem key ks) ⊎ ((contains key ks ≡ false) × (¬ Mem key ks))
unfolding contains
contains-Mem key [] = inr (refl, not-mem-nil)
contains-Mem key (k ∷ ks) = elim (equal-cases key k) [
  | inl (p, h) ↦ inl (rw h refl, rw p mem-cons_self)
  | inr (n, h) ↦ elim (contains-Mem key ks) [
    | inl (c, m) ↦ inl (rw (h, c) refl, mem-cons_of_mem k m)
    | inr (c, m) ↦ inr (rw (h, c) refl, λ o. Or.elim ⊥_prop (eq-or-mem_of_mem-cons o) n m)
  ]
]

pub mem-intersection :
    (key : Chars) (a b : List Chars) → Mem key (intersection a b) ↔ (Mem key a × Mem key b)
unfolding intersection
mem-intersection key [] b = (λ m. absurd (not-mem-nil m), λ m. absurd (not-mem-nil m.0))
mem-intersection key (k ∷ a) b =
    let (into, back) = mem-intersection key a b in
    elim (contains-Mem k b) [
      | inl (c, m) ↦ rw c (
        λ o.
            Or.elim (hlevel) (eq-or-mem_of_mem-cons o) (λ p. (rw (← p) mem-cons_self, rw (p) m))
              (λ n. let (x, y) = into n in (mem-cons_of_mem k x, y)),
        λ (x, y).
            Or.elim (hlevel) (eq-or-mem_of_mem-cons x) (λ p. rw (← p) mem-cons_self)
              (λ n. mem-cons_of_mem k (back (n, y))),
      )
      | inr (c, absent) ↦ rw c (
        λ o. let (x, y) = into o in (mem-cons_of_mem k x, y),
        λ (x, y).
            Or.elim (hlevel) (eq-or-mem_of_mem-cons x) (λ p. absurd (absent (rw p at y)))
              (λ n. back (n, y)),
      )
    ]

abbrev pub list_sets : Sets
list_sets = record {
  intersection = intersection;
  mem-intersection = λ {key} {a} {b}. mem-intersection key a b;
}
