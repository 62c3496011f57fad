-- ===== src/Entries/Unique.antt =====
-- Lists in which no pair occurs twice, which the cache keeps.
use mathlib.Core.HLevel.{⊥_prop}
use mathlib.Core.List.{
  Nodup-cons, Nodup-nil, Nodup-append, not-mem-nil, mem-cons, nil-sublist, Sublist, Sublistᴰ,
  erase-sublist, sublist-cons_self, erase-cons-head, erase-cons-tail,
}
use mathlib.Core.List.Nodup
use mathlib.Core.List.Sublist
use mathlib.Core.Logic.Or
use mathlib.Core.Logic.{∥∥₁_elim}
use native.Mathlib.Bridge.{le_prop}
use ezbake_common.Common.{
  ℕ, zero, suc, ◌≤◌, ◌≡◌, ◌≢◌, refl, sym, ap, if_pos, if_neg, List, [], ◌∷◌, ◌++◌, none, some, Mem,
  Nodup, arith, length, length-append, get_elem?, erase_idx, mem_of_get_elem?, Bool-cases,
  Option-cases, inl, inr, not, ◌&&◌, leb, ◌==◌,
}
use ezbake_common.Entries.{
  drop_oldest, drop_key, drop_entry, make_room, oldest, touch, put, entry_discrete,
}

module _ {ℓ} {A : Type ℓ} where
  erase_idx-Sublist : (l : List A) (i : ℕ) → Sublist (erase_idx l i) l
  erase_idx-Sublist [] i = nil-sublist []
  erase_idx-Sublist (x ∷ l) zero = sublist-cons_self x l
  erase_idx-Sublist (x ∷ l) (suc i) = Sublist.cons-cons x (erase_idx-Sublist l i)

  Nodup-append_new : {l : List A} {x : A} → Nodup l → ¬ Mem x l → Nodup (l ++ x ∷ [])
  Nodup-append_new {l} {x} d n = Nodup-append.1 (
    d,
    Nodup-cons.1 (not-mem-nil, Nodup-nil),
    λ a b c. Or.elim ⊥_prop (mem-cons.0 c) (λ q. n (rw q at b)) not-mem-nil,
  )

  length-le_of_Sublistᴰ : {xs ys : List A} → Sublistᴰ xs ys → length xs ≤ length ys
  length-le_of_Sublistᴰ Sublistᴰ.slnil = omega arith
  length-le_of_Sublistᴰ (Sublistᴰ.cons s) = let h = length-le_of_Sublistᴰ s in omega arith
  length-le_of_Sublistᴰ (Sublistᴰ.cons-cons e s) = let h = length-le_of_Sublistᴰ s in omega arith

  pub length-le_of_Sublist : {xs ys : List A} → Sublist xs ys → length xs ≤ length ys
  length-le_of_Sublist s = ∥∥₁_elim s le_prop length-le_of_Sublistᴰ

  -- There is room for one more entry.
  pub length-make_room :
      (capacity : ℕ) (l : List A)
      → capacity ≢ 0
      → length l ≤ capacity
      → suc (length (make_room capacity l)) ≤ capacity
  unfolding make_room
  length-make_room capacity [] h b = ground arith
  length-make_room capacity (x ∷ l) h b = ground arith

  pub make_room-Sublist : (capacity : ℕ) (l : List A) → Sublist (make_room capacity l) l
  unfolding make_room
  make_room-Sublist capacity l =
      elim (Bool-cases (not (capacity == 0) && leb capacity (length l))) [
        | inl e ↦ rw e (erase_idx-Sublist l 0)
        | inr e ↦ rw e (Sublist.refl l)
      ]

module _ {ℓ} {K V : Type ℓ} (dk : Discrete K) (k : K) where
  pub drop_key-Sublist : (l : List (K × V)) → Sublist (drop_key dk k l) l
  unfolding drop_key
  drop_key-Sublist [] = nil-sublist []
  drop_key-Sublist (e ∷ l) = elim (dk e.0 k) [
    | yes p ↦ rw (if_pos _ p) (Sublist.cons e (drop_key-Sublist l))
    | no p ↦ rw (if_neg _ p) (Sublist.cons-cons e (drop_key-Sublist l))
  ]

  pub drop_oldest-Sublist : (l : List (K × V)) → Sublist (drop_oldest dk k l) l
  unfolding drop_oldest
  drop_oldest-Sublist [] = nil-sublist []
  drop_oldest-Sublist (e ∷ l) = elim (dk e.0 k) [
    | yes p ↦ rw (if_pos _ p) (sublist-cons_self e l)
    | no p ↦ rw (if_neg _ p) (Sublist.cons-cons e (drop_oldest-Sublist l))
  ]

  pub drop_oldest_of_none : (l : List (K × V)) → oldest dk k l ≡ none → drop_oldest dk k l ≡ l
  unfolding oldest drop_oldest
  drop_oldest_of_none [] h = refl
  drop_oldest_of_none (e ∷ l) h = ground (arith, drop_oldest_of_none l)

  pub not-mem-drop_oldest :
      (l : List (K × V)) {v : V}
      → Nodup l
      → oldest dk k l ≡ some v
      → ¬ Mem (k, v) (drop_oldest dk k l)
  unfolding oldest drop_oldest
  not-mem-drop_oldest [] d h = cc
  not-mem-drop_oldest (e ∷ l) {v} d h = elim (dk e.0 k) [
    | yes p ↦
        let q : e ≡ (k, v) = ground arith in rw (if_pos _ p) (λ m. (Nodup-cons.0 d).0 (rw q m))
    | no p ↦ rw (if_neg _ p) (λ m.
        Or.elim ⊥_prop (mem-cons.0 m) (λ q. p (sym (ap (λ (x : K × V). x.0) q)))
          (not-mem-drop_oldest l (Nodup-cons.0 d).1 (ground arith)))
  ]

  -- A use of a key leaves the pairs distinct.
  pub touch-Nodup : (l : List (K × V)) → Nodup l → Nodup (touch dk k l)
  unfolding touch
  touch-Nodup l d = elim (Option-cases (oldest dk k l)) [
    | inl e ↦ rw (e, touch) d
    | inr (v, e) ↦
        rw (e, touch)
          (Nodup-append_new (Nodup.sublist (drop_oldest-Sublist l) d) (not-mem-drop_oldest l d e))
  ]

module _ {ℓ} {K V : Type ℓ} (dk : Discrete K) (dv : Discrete V) (k : K) (v : V) where
  -- Without duplicates, any position of a pair is its only one.
  pub drop_entry-erase_idx :
      (l : List (K × V)) (i : ℕ)
      → Nodup l
      → get_elem? l i ≡ some (k, v)
      → erase_idx l i ≡ drop_entry dk dv k v l
  drop_entry-erase_idx [] i d h = refl
  drop_entry-erase_idx (e ∷ l) zero d h =
      let q : e ≡ (k, v) = cc in sym (rw q (erase-cons-head (entry_discrete dk dv) (k, v) l))
  drop_entry-erase_idx (e ∷ l) (suc i) d h =
      let n : ¬ (e ≡ (k, v)) = λ q. (Nodup-cons.0 d).0 (rw q (mem_of_get_elem? l i h)) in
      rw (erase-cons-tail (entry_discrete dk dv) l n)
        (ap (◌∷◌ e) (drop_entry-erase_idx l i (Nodup-cons.0 d).1 h))

  -- A new entry leaves the pairs distinct.
  pub put-Nodup : (capacity : ℕ) (l : List (K × V)) → Nodup l → Nodup (put dk dv capacity k v l)
  unfolding put
  put-Nodup capacity l d =
      let sub = make_room-Sublist capacity (drop_entry dk dv k v l) in
      Nodup-append_new
        (Nodup.sublist sub (Nodup.sublist (erase-sublist (entry_discrete dk dv) (k, v)) d))
        (λ m. ((Nodup.mem-erase_iff (entry_discrete dk dv) d).0 (Sublist.subset sub _ m)).0 refl)

module _ {ℓ} {K V : Type ℓ} (dk : Discrete K) (k : K) where
  -- A use of a key keeps the number of entries.
  length-drop_oldest :
      (l : List (K × V)) {v : V}
      → oldest dk k l ≡ some v
      → suc (length (drop_oldest dk k l)) ≡ length l
  unfolding oldest drop_oldest
  length-drop_oldest [] h = cc
  length-drop_oldest (e ∷ l) {v} h = ground (arith, length-drop_oldest l {v = v})

  pub length-touch : (l : List (K × V)) → length (touch dk k l) ≡ length l
  unfolding touch
  length-touch l = elim (Option-cases (oldest dk k l)) [
    | inl e ↦ rw (e, touch)
    | inr (v, e) ↦
        rw (e, touch)
          (let n = length-drop_oldest l e in
            omega (arith, length-append (drop_oldest dk k l) ((k, v) ∷ [])))
  ]
