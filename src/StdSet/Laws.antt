-- ===== src/StdSet/Laws.antt =====
-- What a std::set holds after insertions: the inserted elements, each once, in ascending order.
use mathlib.Core.List.{mem-cons, mem-cons_self, mem-cons_of_mem, not-mem-nil, Mem-prop}
use mathlib.Core.Logic.Or
use mathlib.Core.Logic.{◌∨₁◌}
use ezbake_common.Common.{
  ◌≡◌, ◌↔◌, Bool, true, false, List, [], ◌∷◌, Mem, Bool-cases, inl, inr, arith,
}
use ezbake_common.StdSet.{insert, insert_all}

-- The order behind a std::set: operator< as a strict total order.
pub record IsOrder {ℓ} {A : Type ℓ} (less : A → A → Bool) : Type ℓ where
  pub irreflexive : (a : A) → less a a ≡ false
  pub transitive : (a b c : A) → less a b ≡ true → less b c ≡ true → less a c ≡ true
  pub connected : (a b : A) → less a b ≡ false → less b a ≡ false → a ≡ b

module _ {ℓ} {A : Type ℓ} (less : A → A → Bool) where
  -- Each element precedes the next.
  abbrev pub Before : A → List A → Type 0
  Before x [] = Unit {0}
  Before x (y ∷ s) = less x y ≡ true

  abbrev pub IsAscending : List A → Type 0
  IsAscending [] = Unit {0}
  IsAscending (x ∷ s) = Before x s × IsAscending s

  Before-insert : (y x : A) (s : List A) → less y x ≡ true → Before y s → Before y (insert less x s)
  unfolding insert
  Before-insert y x [] h b = h
  Before-insert y x (z ∷ s) h b = ground arith

  pub insert-IsAscending : (x : A) (s : List A) → IsAscending s → IsAscending (insert less x s)
  unfolding insert
  insert-IsAscending x [] a = (tt, tt)
  insert-IsAscending x (y ∷ s) (b, a) =
      ground (arith, insert-IsAscending x s a, Before-insert y x s)

  pub insert_all-IsAscending : (xs s : List A) → IsAscending s → IsAscending (insert_all less xs s)
  unfolding insert_all
  insert_all-IsAscending [] s a = a
  insert_all-IsAscending (x ∷ xs) s a =
      insert_all-IsAscending xs (insert less x s) (insert-IsAscending x s a)

  module _ (order : IsOrder less) where
    pub mem-insert_self : (x : A) (s : List A) → Mem x (insert less x s)
    unfolding insert
    mem-insert_self x [] = mem-cons_self
    mem-insert_self x (y ∷ s) = elim (Bool-cases (less x y)) [
      | inl e ↦ rw e mem-cons_self
      | inr e ↦ elim (Bool-cases (less y x)) [
        | inl f ↦ rw (e, f) (mem-cons_of_mem y (mem-insert_self x s))
        | inr f ↦ rw (e, f) (rw (order.connected x y e f) mem-cons_self)
      ]
    ]

    pub mem-insert_of_mem : (x z : A) (s : List A) → Mem z s → Mem z (insert less x s)
    unfolding insert
    mem-insert_of_mem x z [] m = absurd (not-mem-nil m)
    mem-insert_of_mem x z (y ∷ s) m = elim (Bool-cases (less x y)) [
      | inl e ↦ rw e (mem-cons_of_mem x m)
      | inr e ↦ elim (Bool-cases (less y x)) [
        | inl f ↦
            rw (e, f)
              (Or.elim Mem-prop (mem-cons.0 m) (λ q. rw q mem-cons_self)
                (λ n. mem-cons_of_mem y (mem-insert_of_mem x z s n)))
        | inr f ↦ rw (e, f) m
      ]
    ]

  pub mem_of_mem-insert : (x z : A) (s : List A) → Mem z (insert less x s) → Mem z (x ∷ s)
  unfolding insert
  mem_of_mem-insert x z [] m = m
  mem_of_mem-insert x z (y ∷ s) m = elim (Bool-cases (less x y)) [
    | inl e ↦ rw e at m
    | inr e ↦ elim (Bool-cases (less y x)) [
      | inl f ↦
          Or.elim Mem-prop (mem-cons.0 (rw (e, f) at m))
            (λ q. rw q (mem-cons_of_mem x mem-cons_self))
            (λ n.
              Or.elim Mem-prop (mem-cons.0 (mem_of_mem-insert x z s n)) (λ q. rw q mem-cons_self)
                (λ r. mem-cons_of_mem x (mem-cons_of_mem y r)))
      | inr f ↦ mem-cons_of_mem x (rw (e, f) at m)
    ]
  ]

  mem_of_mem-insert_all :
      (z : A) (xs s : List A) → Mem z (insert_all less xs s) → Mem z xs ∨₁ Mem z s
  unfolding insert_all
  mem_of_mem-insert_all z [] s m = Or.inr m
  mem_of_mem-insert_all z (x ∷ xs) s m =
      Or.elim (hlevel) (mem_of_mem-insert_all z xs (insert less x s) m)
        (λ n. Or.inl (mem-cons_of_mem x n))
        (λ n.
          Or.elim (hlevel) (mem-cons.0 (mem_of_mem-insert x z s n))
            (λ q. Or.inl (rw q mem-cons_self)) (λ r. Or.inr r))

  module _ (order : IsOrder less) where
    mem-insert_all_of_set : (z : A) (xs s : List A) → Mem z s → Mem z (insert_all less xs s)
    unfolding insert_all
    mem-insert_all_of_set z [] s m = m
    mem-insert_all_of_set z (x ∷ xs) s m =
        mem-insert_all_of_set z xs (insert less x s) (mem-insert_of_mem order x z s m)

    mem-insert_all_of_mem : (z : A) (xs s : List A) → Mem z xs → Mem z (insert_all less xs s)
    unfolding insert_all
    mem-insert_all_of_mem z [] s m = absurd (not-mem-nil m)
    mem-insert_all_of_mem z (x ∷ xs) s m =
        Or.elim Mem-prop (mem-cons.0 m)
          (λ q. mem-insert_all_of_set z xs (insert less x s) (rw q (mem-insert_self order x s)))
          (mem-insert_all_of_mem z xs (insert less x s))

    -- A set filled from a range has the elements of the range.
    pub mem-insert_all : (z : A) (xs : List A) → Mem z (insert_all less xs []) ↔ Mem z xs
    mem-insert_all z xs = (
      λ m.
          Or.elim Mem-prop (mem_of_mem-insert_all z xs [] m) (λ n. n) (λ n. absurd (not-mem-nil n)),
      mem-insert_all_of_mem z xs [],
    )
