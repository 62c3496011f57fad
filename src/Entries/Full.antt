-- ===== src/Entries/Full.antt =====
-- A list of entries at its capacity: a use of its first entry, and the next entry that is put.
use mathlib.Core.HLevel.{⊥_prop}
use mathlib.Core.List.{
  append-nil, erase, erase-cons-head, erase_of_not-mem, mem-append, mem-cons, mem-cons_self,
  mem-cons_of_mem, not-mem-nil,
}
use mathlib.Core.Logic.Or
use ezbake_common.Common.{
  ℕ, suc, ◌<◌, ◌≡◌, refl, if_pos, List, [], ◌∷◌, ◌++◌, some, Mem, length, length-append, arith,
}
use ezbake_common.Entries
use ezbake_common.Entries.Erase.{erase-append_right, erase-append_left}
use ezbake_common.Entries.{oldest, drop_oldest, touch, make_room, entry_discrete}

module _ {ℓ} {A : Type ℓ} where
  pub not-mem-rotate : {a : A} (x : A) (l : List A) → ¬ Mem a (x ∷ l) → ¬ Mem a (l ++ x ∷ [])
  not-mem-rotate x l out m =
      Or.elim ⊥_prop (mem-append.0 m) (λ n. out (mem-cons_of_mem x n))
        (λ n. Or.elim ⊥_prop (mem-cons.0 n) (λ q. out (rw q mem-cons_self)) not-mem-nil)

  pub length-snoc : (f : A) (l : List A) (x : A) → suc (length (l ++ x ∷ [])) ≡ length (x ∷ f ∷ l)
  length-snoc f l x = omega (arith, length-append l (x ∷ []))

  pub erase-middle :
      (da : Discrete A) (x y : A) (l : List A)
      → ¬ Mem x l
      → ¬ Mem x (y ∷ [])
      → erase da ((l ++ x ∷ []) ++ y ∷ []) x ≡ l ++ y ∷ []
  erase-middle da x y l before after = rw (
    erase-append_left da (l ++ x ∷ []) (y ∷ []) x after,
    erase-append_right da l (x ∷ []) x before,
    erase-cons-head da x [],
    append-nil l,
  )

module _ {ℓ} {K V : Type ℓ} (dk : Discrete K) (dv : Discrete V) where
  pub put_at_capacity :
      (capacity : ℕ) (j : K) (w : V) (x : K × V) (l : List (K × V))
      → ¬ Mem (j, w) (x ∷ l)
      → capacity ≡ suc (length l)
      → Entries.put dk dv capacity j w (x ∷ l) ≡ l ++ (j, w) ∷ []
  unfolding Entries.put make_room
  put_at_capacity capacity j w x l out full =
      rw (erase_of_not-mem (entry_discrete dk dv) out, full) (ground arith)

  pub put_below_capacity :
      (capacity : ℕ) (j : K) (w : V) (l : List (K × V))
      → ¬ Mem (j, w) l
      → length l < capacity
      → Entries.put dk dv capacity j w l ≡ l ++ (j, w) ∷ []
  unfolding Entries.put make_room
  put_below_capacity capacity j w l out room =
      rw (erase_of_not-mem (entry_discrete dk dv) out) (ground arith)

  pub oldest-head : (k : K) (v : V) (l : List (K × V)) → oldest dk k ((k, v) ∷ l) ≡ some v
  unfolding oldest
  oldest-head k v l = rw (if_pos (dk k k) refl)

  pub drop_oldest-head : (k : K) (v : V) (l : List (K × V)) → drop_oldest dk k ((k, v) ∷ l) ≡ l
  unfolding drop_oldest
  drop_oldest-head k v l = rw (if_pos (dk k k) refl)

  pub touch-head : (k : K) (v : V) (l : List (K × V)) → touch dk k ((k, v) ∷ l) ≡ l ++ (k, v) ∷ []
  unfolding touch
  touch-head k v l = rw (oldest-head k v l, touch) (rw (drop_oldest-head k v l))
