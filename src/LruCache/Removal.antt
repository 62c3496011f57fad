-- ===== src/LruCache/Removal.antt =====
-- `remove(key)`: all values of the key go, and are returned.
use mathlib.Core.List.Perm
use mathlib.Core.List.{filter_map, filter_map-cons-some, mem-cons_self, mem-cons_of_mem}
use ezbake_common.Bimap.{Bimap}
use ezbake_common.Common.{ℕ, ◌≡◌, refl, List, [], ◌∷◌, Mem, Perm, ok, get_elem?, true}
use ezbake_common.Entries.Positions.{
  has_key, has_key-eq_true, value_at, value_at-eq_some, values-positions,
}
use ezbake_common.Entries.{values, drop_key}
use ezbake_common.LruCache.Iterators.{deref-some, has_key_of_mem-range}
use ezbake_common.LruCache.Refinement.{view}
use ezbake_common.LruCache.{LruCache, values_in_range, remove_key}

module _ {ℓ} {K V : Type ℓ} {dk : Discrete K} (dv : Discrete V) (B : Bimap V dk) where
  open B use {Store, right}

  -- The values that a range of iterators reads.
  abbrev pub read_values : Store → List ℕ → List V
  read_values s = filter_map (value_at (right s))

  pub read_values-perm :
      (s : Store) (k : K) → Perm (read_values s (B.equal_range s k)) (values dk k (right s))
  read_values-perm s k =
      rw (← values-positions dk k (right s))
        (Perm.filter_map (value_at (right s)) (B.equal_range-positions s k))

  values_in_range_lem :
      (s : Store) (k : K) (range : List ℕ)
      → ((j : ℕ) → Mem j range → has_key dk k (get_elem? (right s) j) ≡ true)
      → values_in_range dv B s range ≡ ok (read_values s range)
  unfolding values_in_range filter_map
  values_in_range_lem s k [] h = refl
  values_in_range_lem s k (itr ∷ range) h =
      let (w, e) = has_key-eq_true dk k (get_elem? (right s) itr) (h itr mem-cons_self) in
      let rest = values_in_range_lem s k range (λ j m. h j (mem-cons_of_mem itr m)) in
      let here = value_at-eq_some (right s) itr e in
      rw (deref-some dv B s itr e, values_in_range)
        (rw (rest, filter_map-cons-some (value_at (right s)) itr range here))

  -- `remove(key)` returns the values of the key, in the order of the hashed view, and leaves the
  -- entries of the other keys in their order.
  pub remove_key-drop_key :
      (c : LruCache B) (k : K)
      → (c' : LruCache B) × (vs : List V) × (remove_key dv B c k ≡ ok (c', vs))
        × Perm vs (values dk k (view c))
        × (view c' ≡ drop_key dk k (view c))
        × (c'.capacity ≡ c.capacity)
  unfolding remove_key
  remove_key-drop_key c k = (
    record c { store = B.erase_key c.store k },
    read_values c.store (B.equal_range c.store k),
    rw (
      values_in_range_lem c.store k (B.equal_range c.store k) (has_key_of_mem-range dv B c.store k),
      remove_key,
    ),
    read_values-perm c.store k,
    B.right-erase_key c.store k,
    refl,
  )
