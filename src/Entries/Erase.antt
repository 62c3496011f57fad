-- ===== src/Entries/Erase.antt =====
-- What erasing an entry does to a list that is put together from two.
use mathlib.Core.List.{
  append-nil, erase, erase_of_not-mem, erase-cons-head, erase-cons-tail, mem-cons_self,
  mem-cons_of_mem,
}
use ezbake_common.Common.{
  ◌≡◌, refl, sym, ap, ◌∙◌, if_pos, if_neg, List, [], ◌∷◌, ◌++◌, some, Mem, Nodup, arith,
}
use ezbake_common.Entries.Unique.{not-mem-drop_oldest}
use ezbake_common.Entries.{oldest, drop_oldest, touch, drop_entry, entry_discrete}

module _ {ℓ} {A : Type ℓ} (dec : Discrete A) where
  -- An element that stands behind a prefix is erased there, one of the prefix in the prefix.
  pub erase-append_right :
      (xs ys : List A) (x : A) → ¬ Mem x xs → erase dec (xs ++ ys) x ≡ xs ++ erase dec ys x
  erase-append_right [] ys x n = refl
  erase-append_right (y ∷ xs) ys x n =
      rw (erase-cons-tail dec (xs ++ ys) (λ (e : y ≡ x). n (rw e mem-cons_self)))
        (ap (◌∷◌ y) (erase-append_right xs ys x (λ m. n (mem-cons_of_mem y m))))

  pub erase-append_left :
      (xs ys : List A) (x : A) → ¬ Mem x ys → erase dec (xs ++ ys) x ≡ erase dec xs x ++ ys
  erase-append_left [] ys x n = erase_of_not-mem dec n
  erase-append_left (y ∷ xs) ys x n = ground (arith, erase-append_left xs ys x n)

module _ {ℓ} {K V : Type ℓ} (dk : Discrete K) where
  pub mem_of_oldest : (k : K) (l : List (K × V)) {v : V} → oldest dk k l ≡ some v → Mem (k, v) l
  unfolding oldest
  mem_of_oldest k [] h = cc
  mem_of_oldest k (e ∷ l) {v} h = elim (dk e.0 k) [
    | yes p ↦ let q : e ≡ (k, v) = ground arith in rw q mem-cons_self
    | no n ↦ mem-cons_of_mem e (mem_of_oldest k l (ground arith))
  ]

module _ {ℓ} {K V : Type ℓ} (dk : Discrete K) (dv : Discrete V) where
  pub drop_oldest-drop_entry :
      (k : K) (l : List (K × V)) {v : V}
      → oldest dk k l ≡ some v
      → drop_oldest dk k l ≡ drop_entry dk dv k v l
  unfolding oldest drop_oldest
  drop_oldest-drop_entry k [] h = refl
  drop_oldest-drop_entry k (e ∷ l) {v} h = elim (dk e.0 k) [
    | yes p ↦
        let q : e ≡ (k, v) = ground arith in
        rw (if_pos _ p) (sym (rw q (erase-cons-head (entry_discrete dk dv) (k, v) l)))
    | no n ↦
        rw
          (
            if_neg _ n,
            erase-cons-tail (entry_discrete dk dv) l
                (λ (q : e ≡ (k, v)). n (ap (λ (x : K × V). x.0) q)),
          )
          (ap (◌∷◌ e) (drop_oldest-drop_entry k l (ground arith)))
  ]

  -- A use of a key whose entry is then dropped.
  pub drop_entry-touch :
      (k : K) (l : List (K × V)) {v : V}
      → Nodup l
      → oldest dk k l ≡ some v
      → drop_entry dk dv k v (touch dk k l) ≡ drop_oldest dk k l
  unfolding touch
  drop_entry-touch k l {v} d o =
      rw (o, touch)
        (erase-append_right (entry_discrete dk dv) (drop_oldest dk k l) ((k, v) ∷ []) (k, v)
            (not-mem-drop_oldest dk k l d o)
          ∙ rw (erase-cons-head (entry_discrete dk dv) (k, v) []) (append-nil _))
