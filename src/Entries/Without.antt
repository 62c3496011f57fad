-- ===== src/Entries/Without.antt =====
-- A list without the elements of another, by the order in which they are dropped.
use mathlib.Core.HLevel.{⊥_prop}
use mathlib.Core.List.{
  dec_mem, erase, erase-cons-head, erase-cons-tail, filter-eq_self, filter_congr, filter-sublist,
  mem-filter, mem-cons, mem-cons_self, mem-cons_of_mem, not-mem-nil, Nodup-cons,
}
use mathlib.Core.List.Nodup
use mathlib.Core.Logic.Or
use ezbake_common.Common.{
  ◌≡◌, ◌↔◌, refl, sym, ap, ◌∙◌, if_pos, if_neg, List, [], ◌∷◌, filter, Mem, Nodup,
}

module _ {ℓ} {A : Type ℓ} (da : Discrete A) where
  -- Whether an element is not in a list.
  abbrev pub absent : (set : List A) (a : A) → Dec (¬ Mem a set)
  absent set a = elim (dec_mem da a set) [ yes m ↦ no (λ n. n m) | no n ↦ yes n ]

  unfoldable pub without : List A → List A → List A
  without set l = filter (absent set) l

  pub without-nil : (l : List A) → without [] l ≡ l
  unfolding without
  without-nil l = (filter-eq_self (absent [])).1 (λ a m. not-mem-nil)

  without-nil_at : (set : List A) → without set [] ≡ []
  unfolding without
  without-nil_at set = refl

  pub without_of_absent : (set l : List A) → ((a : A) → Mem a l → ¬ Mem a set) → without set l ≡ l
  unfolding without
  without_of_absent set l h = (filter-eq_self (absent set)).1 h

  pub without-cons_of_mem :
      {set : List A} {x : A} (l : List A) → Mem x set → without set (x ∷ l) ≡ without set l
  unfolding without
  without-cons_of_mem {set} {x} l m = rw (if_neg (absent set x) (λ n. n m))

  pub without-cons_of_absent :
      {set : List A} {x : A} (l : List A) → ¬ Mem x set → without set (x ∷ l) ≡ x ∷ without set l
  unfolding without
  without-cons_of_absent {set} {x} l n = rw (if_pos (absent set x) n)

  pub mem-without : (set l : List A) (a : A) → Mem a (without set l) ↔ (Mem a l × (¬ Mem a set))
  unfolding without
  mem-without set l a = mem-filter (absent set)

  pub without-Nodup : (set : List A) {l : List A} → Nodup l → Nodup (without set l)
  unfolding without
  without-Nodup set d = Nodup.sublist (filter-sublist (absent set)) d

  without-cons :
      {x : A} (set : List A) {l : List A} → ¬ Mem x l → without (x ∷ set) l ≡ without set l
  unfolding without
  without-cons {x} set {l} out = filter_congr (absent (x ∷ set)) (absent set) l (λ a m. (
    λ n o. n (mem-cons_of_mem x o),
    λ n o. Or.elim ⊥_prop (mem-cons.0 o) (λ q. out (rw q at m)) n,
  ))

  -- One after the other is all at once.
  pub without-erase :
      (x : A) (set l : List A) → Nodup l → without set (erase da l x) ≡ without (x ∷ set) l
  without-erase x set [] d = without-nil_at set ∙ sym (without-nil_at (x ∷ set))
  without-erase x set (e ∷ l) d =
      let (out, d') = Nodup-cons.0 d in
      let ih = without-erase x set l d' in
      elim (da e x) [
        | yes p ↦
            ap (λ y. without set (erase da (e ∷ l) y)) (sym p)
            ∙ ap (without set) (erase-cons-head da e l)
            ∙ sym (without-cons set (λ m. out (rw p m)))
            ∙ sym (without-cons_of_mem l (rw p mem-cons_self))
        | no n ↦ elim (dec_mem da e set) [
          | yes m ↦
              ap (without set) (erase-cons-tail da l n)
              ∙ without-cons_of_mem (erase da l x) m
              ∙ ih
              ∙ sym (without-cons_of_mem l (mem-cons_of_mem x m))
          | no o ↦
              ap (without set) (erase-cons-tail da l n)
              ∙ without-cons_of_absent (erase da l x) o
              ∙ ap (λ r. e ∷ r) ih
              ∙ sym (without-cons_of_absent l (λ m. Or.elim ⊥_prop (mem-cons.0 m) n o))
        ]
      ]
