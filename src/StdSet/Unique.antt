-- ===== src/StdSet/Unique.antt =====
-- A std::set is determined by its elements: neither the order nor the number of insertions shows.
use mathlib.Core.HLevel.{⊥_prop}
use mathlib.Core.List.Perm
use mathlib.Core.List.{mem-cons, mem-cons_self, mem-cons_of_mem, mem-map, not-mem-nil, Mem-prop}
use mathlib.Core.Logic.Or
use mathlib.Core.Logic.{∥∥₁_map}
use ezbake_common.Common.{
  ◌≡◌, refl, ◌↔◌, Bool, true, List, [], ◌∷◌, map, Mem, Perm, Bool-cases, inl, inr,
}
use ezbake_common.StdSet.Laws.{IsOrder, IsAscending, Before, insert_all-IsAscending, mem-insert_all}
use ezbake_common.StdSet.{insert_all}

module _ {ℓ} {A : Type ℓ} (less : A → A → Bool) (order : IsOrder less) where
  -- The first element precedes all others.
  less_of_mem :
      (x z : A) (s : List A) → Before less x s → IsAscending less s → Mem z s → less x z ≡ true
  less_of_mem x z [] b a m = absurd (not-mem-nil m)
  less_of_mem x z (y ∷ s) b (before, a) m =
      Or.elim (hlevel) (mem-cons.0 m) (λ q. rw q b)
        (λ n. order.transitive x y z b (less_of_mem y z s before a n))

  not_less_both : (x y : A) → less x y ≡ true → less y x ≡ true → ⊥
  not_less_both x y h g = let t = order.transitive x y x h g in let i = order.irreflexive x in cc

  head-eq :
      (x y : A) (s t : List A)
      → IsAscending less (x ∷ s)
      → IsAscending less (y ∷ t)
      → Mem x (y ∷ t)
      → Mem y (x ∷ s)
      → x ≡ y
  head-eq x y s t (b, a) (c, d) m n = elim (Bool-cases (less x y)) [
    | inl e ↦ absurd (
        Or.elim ⊥_prop (mem-cons.0 m)
          (λ q. let i = order.irreflexive y in let f : less y y ≡ true = rw q at e in cc)
          (λ o. not_less_both x y e (less_of_mem y x t c d o)))
    | inr e ↦ elim (Bool-cases (less y x)) [
      | inl f ↦ absurd (
          Or.elim ⊥_prop (mem-cons.0 n)
            (λ q. let i = order.irreflexive x in let g : less x x ≡ true = rw q at f in cc)
            (λ o. not_less_both x y (less_of_mem x y s b a o) f))
      | inr f ↦ order.connected x y e f
    ]
  ]

  tail-mem :
      (x z : A) (s t : List A)
      → Before less x s
      → IsAscending less s
      → (Mem z (x ∷ s) → Mem z (x ∷ t))
      → Mem z s
      → Mem z t
  tail-mem x z s t b a h m =
      Or.elim Mem-prop (mem-cons.0 (h (mem-cons_of_mem x m)))
        (λ q.
          let l = less_of_mem x z s b a m in
          let i = order.irreflexive x in let f : less x x ≡ true = rw q at l in absurd (cc))
        (λ n. n)

  ascending-ext :
      (s t : List A)
      → IsAscending less s
      → IsAscending less t
      → ((z : A) → Mem z s ↔ Mem z t)
      → s ≡ t
  ascending-ext [] [] a b h = refl
  ascending-ext [] (y ∷ t) a b h = absurd (not-mem-nil ((h y).1 mem-cons_self))
  ascending-ext (x ∷ s) [] a b h = absurd (not-mem-nil ((h x).0 mem-cons_self))
  ascending-ext (x ∷ s) (y ∷ t) a b h =
      let q = head-eq x y s t a b ((h x).0 mem-cons_self) ((h y).1 mem-cons_self) in
      let b' : IsAscending less (x ∷ t) = rw q b in
      let h' : (z : A) → Mem z (x ∷ s) ↔ Mem z (x ∷ t) = λ z. rw (← q) at (h z) in
      let rest =
        ascending-ext s t a.1 b.1
          (λ z. (tail-mem x z s t a.0 a.1 (h' z).0, tail-mem x z t s b'.0 b'.1 (h' z).1)) in
      λ i. q i ∷ rest i

  -- The same insertions, in any order and any number, give the same set.
  insert_all-ext :
      (xs ys : List A)
      → ((z : A) → Mem z xs ↔ Mem z ys)
      → insert_all less xs [] ≡ insert_all less ys []
  insert_all-ext xs ys h =
      ascending-ext (insert_all less xs []) (insert_all less ys [])
        (insert_all-IsAscending less xs [] tt) (insert_all-IsAscending less ys [] tt)
        (λ z.
          let a = mem-insert_all less order z xs in
          let b = mem-insert_all less order z ys in
          (λ m. b.1 ((h z).0 (a.0 m)), λ m. a.1 ((h z).1 (b.0 m))))

  pub insert_all-perm :
      {xs ys : List A} → Perm xs ys → insert_all less xs [] ≡ insert_all less ys []
  insert_all-perm {xs} {ys} p = insert_all-ext xs ys (λ z. Perm.mem_iff {a = z} p)

  -- An ascending list of the inserted elements is the set.
  pub ascending-eq-insert_all :
      (s xs : List A)
      → IsAscending less s
      → ((z : A) → Mem z s ↔ Mem z xs)
      → s ≡ insert_all less xs []
  ascending-eq-insert_all s xs a h =
      ascending-ext s (insert_all less xs []) a (insert_all-IsAscending less xs [] tt) (λ z.
        let b = mem-insert_all less order z xs in (λ m. b.1 ((h z).0 m), λ m. (h z).1 (b.0 m)))

-- The image of a set as another set: what was inserted decides.
pub insert_all-map {ℓ κ} :
    {A : Type ℓ} {B : Type κ} (less : B → B → Bool) (order : IsOrder less) (f : A → B)
    (xs ys : List A)
    → ((z : A) → Mem z xs ↔ Mem z ys)
    → insert_all less (map f xs) [] ≡ insert_all less (map f ys) []
insert_all-map {A} {B} less order f xs ys h = insert_all-ext less order (map f xs) (map f ys) (λ z.
    (
      λ m. mem-map.1 (∥∥₁_map (mem-map.0 m) (λ (a, n, q). (a, (h a).0 n, q))),
      λ m. mem-map.1 (∥∥₁_map (mem-map.0 m) (λ (a, n, q). (a, (h a).1 n, q))),
    ))
