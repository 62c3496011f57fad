-- ===== src/LruCache/Queries.antt =====
-- The queries of LRUCache.h: what they say of the entries of a cache.
use mathlib.Core.HLevel.{⊥_prop}
use mathlib.Core.List.Perm
use mathlib.Core.List.{mem-cons, mem-cons_self, mem-cons_of_mem, not-mem-nil, Mem-prop, foldr}
use mathlib.Core.Logic.Or
use native.Mathlib.Nat.{ℕ_set, mod-eq_of_lt}
use ezbake_common.Bimap.{Bimap}
use ezbake_common.Common.{
  ℕ, suc, ◌≡◌, ◌≢◌, ◌↔◌, ◌⊎◌, refl, sym, ap, ◌∙◌, inl, inr, true, false, List, [], ◌∷◌, ◌++◌, none,
  some, length, arith, Mem, Perm, if_pos, if_neg, Option-cases, nil_of_length,
}
use ezbake_common.Entries.{positions, values}
use ezbake_common.LruCache.{
  LruCache, key_of, contains_key, get_key, contains_value, size, is_empty, is_full, value_range,
  to_unsigned,
}
use ezbake_common.LruCache.Refinement.{view}
use ezbake_common.LruCache.Run.{IsValid}

length-foldr {ℓ} : {A : Type ℓ} (xs : List A) → length xs ≡ foldr (λ _ n. suc n) 0 xs
length-foldr [] = refl
length-foldr (x ∷ xs) = ap suc (length-foldr xs)

pub length_of_perm {ℓ} : {A : Type ℓ} {xs ys : List A} → Perm xs ys → length xs ≡ length ys
length_of_perm {xs} {ys} p =
    length-foldr xs ∙ Perm.foldr-eq ℕ_set (λ _ n. suc n) (λ a b x. refl) p 0 ∙ sym (length-foldr ys)

module _ {ℓ} {K V : Type ℓ} (dk : Discrete K) (k : K) where
  length-positions :
      (i : ℕ) (l : List (K × V)) → length (positions dk i k l) ≡ length (values dk k l)
  unfolding positions values
  length-positions i [] = refl
  length-positions i (e ∷ l) = elim (dk e.0 k) [
    | yes p ↦
        rw (if_pos {C = List ℕ} _ p, if_pos {C = List V} _ p) (ap suc (length-positions (suc i) l))
    | no n ↦ rw (if_neg {C = List ℕ} _ n, if_neg {C = List V} _ n) (length-positions (suc i) l)
  ]

  mem_of_mem-values : (v : V) (l : List (K × V)) → Mem v (values dk k l) → Mem (k, v) l
  unfolding values
  mem_of_mem-values v [] m = absurd (not-mem-nil m)
  mem_of_mem-values v (e ∷ l) m = elim (dk e.0 k) [
    | yes p ↦
        Or.elim Mem-prop (mem-cons.0 (rw (if_pos _ p) at m))
          (λ q. let r : e ≡ (k, v) = λ i. (p i, sym q i) in rw r mem-cons_self)
          (λ n. mem-cons_of_mem e (mem_of_mem-values v l n))
    | no n ↦ mem-cons_of_mem e (mem_of_mem-values v l (rw (if_neg _ n) at m))
  ]

  mem-values_of_mem : (v : V) (l : List (K × V)) → Mem (k, v) l → Mem v (values dk k l)
  unfolding values
  mem-values_of_mem v [] m = absurd (not-mem-nil m)
  mem-values_of_mem v (e ∷ l) m =
      Or.elim Mem-prop (mem-cons.0 m)
        (λ q.
          rw (if_pos (dk e.0 k) (ap (λ (x : K × V). x.0) (sym q)), ap (λ (x : K × V). x.1) q)
            mem-cons_self)
        (λ n. elim (dk e.0 k) [
          | yes p ↦ rw (if_pos _ p) (mem-cons_of_mem e.1 (mem-values_of_mem v l n))
          | no o ↦ rw (if_neg _ o) (mem-values_of_mem v l n)
        ])

  pub mem-values : (v : V) (l : List (K × V)) → Mem v (values dk k l) ↔ Mem (k, v) l
  mem-values v l = (mem_of_mem-values v l, mem-values_of_mem v l)

module _ {ℓ} {K V : Type ℓ} {dk : Discrete K} (dv : Discrete V) (B : Bimap V dk) where
  -- `containsKey` holds exactly where the key has a value.
  pub contains_key-values :
      (c : LruCache B) (k : K) → (contains_key dv B c k ≡ true) ↔ (values dk k (view c) ≢ [])
  unfolding contains_key
  contains_key-values c k =
      let n =
        length_of_perm (B.equal_range-positions c.store k) ∙ length-positions dk k 0 (view c) in
      elim (Option-cases (B.find c.store k)) [
        | inl e ↦ (
          λ h. absurd (cc),
          λ h. absurd (h (nil_of_length _ (sym n ∙ ap length (B.find-none c.store k e)))),
        )
        | inr (i, e) ↦ (
          λ _ q. B.find-some c.store k i e (nil_of_length _ (n ∙ ap length q)),
          λ _. rw (e, contains_key),
        )
      ]

  -- The least recently used entry with a value, and the entries before it.
  key_of-cases :
      (v : V) (l : List (K × V))
      → ((key_of dv B v l ≡ none) × ((k : K) → ¬ Mem (k, v) l))
        ⊎ ((k : K) × (before after : List (K × V)) × (key_of dv B v l ≡ some k)
            × (l ≡ before ++ (k, v) ∷ after)
            × ((j : K) → ¬ Mem (j, v) before))
  unfolding key_of
  key_of-cases v [] = inl (refl, λ k. not-mem-nil)
  key_of-cases v (e ∷ l) = elim (dv e.1 v) [
    | yes p ↦ inr (e.0, [], l, rw (if_pos _ p), λ i. (e.0, p i) ∷ l, λ j. not-mem-nil)
    | no n ↦ elim (key_of-cases v l) [
      | inl (o, absent) ↦ inl (
        rw (if_neg _ n) o,
        λ k m. Or.elim ⊥_prop (mem-cons.0 m) (λ q. n (sym (ap (λ (x : K × V). x.1) q))) (absent k),
      )
      | inr (k, before, after, o, split, absent) ↦ inr (
        k,
        e ∷ before,
        after,
        rw (if_neg _ n) o,
        ap (◌∷◌ e) split,
        λ j m. Or.elim ⊥_prop (mem-cons.0 m) (λ q. n (sym (ap (λ (x : K × V). x.1) q))) (absent j),
      )
    ]
  ]

  -- `getKey` and `containsValue` find the least recently used entry with the value, if any has it.
  get_key-cases :
      (c : LruCache B) (v : V)
      → ((get_key dv B c v ≡ none)
          × (contains_value dv B c v ≡ false)
          × ((k : K) → ¬ Mem (k, v) (view c)))
        ⊎ ((k : K) × (before after : List (K × V)) × (get_key dv B c v ≡ some k)
            × (contains_value dv B c v ≡ true)
            × (view c ≡ before ++ (k, v) ∷ after)
            × ((j : K) → ¬ Mem (j, v) before))
  unfolding get_key contains_value
  get_key-cases c v = elim (key_of-cases v (view c)) [
    | inl (o, absent) ↦ inl (o, rw (o, contains_value), absent)
    | inr (k, before, after, o, split, absent) ↦
        inr (k, before, after, o, rw (o, contains_value), split, absent)
  ]

  -- On a valid cache with a limit the counters are exact: nothing wraps around.
  is_full_lem :
      (c : LruCache B)
      → IsValid c
      → c.capacity ≢ 0
      → (size dv B c ≡ length (view c))
        × ((is_full dv B c ≡ true) ↔ (length (view c) ≡ c.capacity))
        × ((is_empty dv B c ≡ true) ↔ (view c ≡ []))
  unfolding is_full is_empty
  is_full_lem c valid limited =
      let b = valid.bounded limited in
      let r = valid.representable in
      let s : size dv B c ≡ length (view c) = mod-eq_of_lt (omega arith) in
      (
        s,
        (λ h. ground arith, λ h. ground arith),
        (λ h. nil_of_length (view c) (ground arith), λ e. ground (arith, ap length e)),
      )

  -- `valueRange` is the number of values of the key, as an unsigned int.
  pub value_range-values :
      (c : LruCache B) (k : K) → value_range dv B c k ≡ to_unsigned (length (values dk k (view c)))
  unfolding value_range
  value_range-values c k =
      ap to_unsigned
        (length_of_perm (B.equal_range-positions c.store k) ∙ length-positions dk k 0 (view c))
