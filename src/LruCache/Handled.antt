-- ===== src/LruCache/Handled.antt =====
-- The public methods of LRUCache.h as answers to requests, and what two of them read.
use mathlib.Core.Quot
use ezbake_common.Bimap.{Bimap}
use ezbake_common.Common.{
  ℕ, ◌≡◌, refl, ap, ◌∙◌, ◌⊎◌, inl, inr, ite, if_pos, if_neg, Bool, List, [], ◌∷◌, none, some, Nodup,
  Outcome, ok, undefined, ◌>>=◌, Bool-cases, ap,
}
use ezbake_common.Entries.{oldest, values}
use ezbake_common.LruCache
use ezbake_common.LruCache.Queries.{contains_key-values}
use ezbake_common.LruCache.Refinement.{view}
use ezbake_common.LruCache.Spec.{
  Request, Answer, done, number, flag, key, value, set, entries, is_some, respond, key_with,
}
use ezbake_common.LruCache.{LruCache, key_of}

-- Whether a key has a value, by its first value and by all of them.
oldest-values {ℓ} :
    {K V : Type ℓ} (dk : Discrete K) (k : K) (l : List (K × V))
    → ((oldest dk k l ≡ none) × (values dk k l ≡ []))
      ⊎ ((v : V) × (vs : List V) × (oldest dk k l ≡ some v) × (values dk k l ≡ v ∷ vs))
unfolding oldest values
oldest-values dk k [] = inl (refl, refl)
oldest-values dk k (e ∷ l) = elim (dk e.0 k) [
  | yes p ↦ inr (e.1, values dk k l, rw (if_pos _ p), rw (if_pos _ p))
  | no n ↦ elim (oldest-values dk k l) [
    | inl (o, w) ↦ inl (rw (if_neg _ n) o, rw (if_neg _ n) w)
    | inr (v, vs, o, w) ↦ inr (v, vs, rw (if_neg _ n) o, rw (if_neg _ n) w)
  ]
]

module _ {ℓ} {K V : Type ℓ} {dk : Discrete K} (dv : Discrete V) (B : Bimap V dk)
    (less_v : V → V → Bool) (less_e : K × V → K × V → Bool) where
  -- A public method, with its answer.
  unfoldable pub handle : LruCache B → Request K V → Outcome (LruCache B × Answer K V)
  unfolding LruCache.get LruCache.pop LruCache.put LruCache.remove_key LruCache.remove_value
      LruCache.value_set
  handle c Request.capacity = ok (c, number c.capacity)
  handle c Request.size = ok (c, number (LruCache.size dv B c))
  handle c Request.is_empty = ok (c, flag (LruCache.is_empty dv B c))
  handle c Request.is_full = ok (c, flag (LruCache.is_full dv B c))
  handle c (Request.contains_key k) = ok (c, flag (LruCache.contains_key dv B c k))
  handle c (Request.value_range k) = ok (c, number (LruCache.value_range dv B c k))
  handle c (Request.contains_value v) = ok (c, flag (LruCache.contains_value dv B c v))
  handle c (Request.get_key v) = ok (c, key (LruCache.get_key dv B c v))
  handle c Request.entry_set = ok (c, entries (LruCache.entry_set dv B less_e c))
  handle c (Request.value_set k) = do vs ← LruCache.value_set dv B less_v c k; ok (c, set vs)
  handle c (Request.get k) = do (c', r) ← LruCache.get dv B c k; ok (c', value r)
  handle c (Request.pop k) = do (c', r) ← LruCache.pop dv B c k; ok (c', value r)
  handle c (Request.remove_key k) = do
    (c', vs) ← LruCache.remove_key dv B c k
    ok (c', Answer.values (Quot.mk vs))
  handle c (Request.put k v) = do c' ← LruCache.put dv B c k v; ok (c', done)
  handle c (Request.remove_value k v) = do
    (c', r) ← LruCache.remove_value dv B c k v
    ok (c', value r)
  handle c Request.clear = ok (LruCache.clear dv B c, done)

  -- The answer of the list.
  abbrev reply : LruCache B → Request K V → Outcome (List (K × V) × Answer K V)
  reply c request = respond dk dv less_v less_e c.capacity (view c) request

  -- Both sides answer alike and go on alike, or both leave the defined behaviour.
  abbrev pub Agrees : LruCache B → Request K V → Type ℓ
  Agrees c request =
      ((c' : LruCache B) × (a : Answer K V) × (handle c request ≡ ok (c', a))
        × (reply c request ≡ ok (view c', a))
        × (c'.capacity ≡ c.capacity)
        × Nodup (view c'))
      ⊎ ((handle c request ≡ undefined) × (reply c request ≡ undefined))

  pub key_of-key_with :
      (limit : ℕ) (v : V) (l : List (K × V))
      → key_of dv B v l ≡ key_with dk dv less_v less_e limit v l
  unfolding key_of key_with
  key_of-key_with limit v [] = refl
  key_of-key_with limit v (e ∷ l) = ap (ite (dv e.1 v) (some e.0)) (key_of-key_with limit v l)

  pub contains_key-oldest :
      (c : LruCache B) (k : K) → LruCache.contains_key dv B c k ≡ is_some (oldest dk k (view c))
  contains_key-oldest c k =
      let found = contains_key-values dv B c k in
      elim (oldest-values dk k (view c)) [
        | inl (o, w) ↦ elim (Bool-cases (LruCache.contains_key dv B c k)) [
          | inl t ↦ absurd (found.0 t w)
          | inr f ↦ f ∙ rw o
        ]
        | inr (v, vs, o, w) ↦ found.1 (λ e. cc) ∙ rw o
      ]
