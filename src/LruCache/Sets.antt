-- ===== src/LruCache/Sets.antt =====
-- `entrySet` and `valueSet`: the std::set that each returns, and the one call of `valueSet` that
-- leaves the defined behaviour.
use mathlib.Core.List.Perm
use mathlib.Core.List.{
  cons-ne-nil, filter_map, filter_map-cons-some, mem-cons_self, mem-cons_of_mem,
}
use ezbake_common.Bimap.{Bimap}
use ezbake_common.Common.{
  ℕ, ◌≡◌, ◌≢◌, ◌↔◌, ◌⊎◌, inl, inr, sym, ◌∙◌, List, [], ◌∷◌, Mem, ok, get_elem?, true, Bool,
  undefined, List-cases, Bool-cases, false,
}
use ezbake_common.Entries.Positions.{has_key, has_key-eq_true, value_at, value_at-eq_some}
use ezbake_common.Entries.{values}
use ezbake_common.LruCache.Iterators.{deref-some, has_key_of_mem-range}
use ezbake_common.LruCache.Refinement.{view}
use ezbake_common.LruCache.Removal.{read_values, read_values-perm}
use ezbake_common.LruCache.{LruCache, deref, value_set_loop, value_set, entry_set, contains_key}
use ezbake_common.LruCache.Queries.{contains_key-values, mem-values}
use ezbake_common.StdSet.Laws.{IsOrder, IsAscending, insert_all-IsAscending, mem-insert_all}
use ezbake_common.StdSet.{insert, insert_all}

module _ {ℓ} {K V : Type ℓ} {dk : Discrete K} (dv : Discrete V) (B : Bimap V dk) where
  -- Where the entries are strictly totally ordered `entrySet` holds exactly the entries of the
  -- cache, in ascending order.
  pub entry_set_lem :
      (less : K × V → K × V → Bool) (c : LruCache B)
      → IsOrder less
      → IsAscending less (entry_set dv B less c)
        × ((e : K × V) → Mem e (entry_set dv B less c) ↔ Mem e (view c))
  unfolding entry_set
  entry_set_lem less c order = (
    insert_all-IsAscending less (B.left c.store) [] tt,
    λ e.
        let set = mem-insert_all less order e (B.left c.store) in
        let perm = Perm.mem_iff {a = e} (B.left-right c.store) in
        (λ m. perm.0 (set.0 m), λ m. set.1 (perm.1 m)),
  )

  module _ (less : V → V → Bool) where
    value_set_loop_lem :
        (s : B.Store) (k : K) (set : List V) (itr : ℕ) (range : List ℕ)
        → ((j : ℕ) → Mem j (itr ∷ range) → has_key dk k (get_elem? (B.right s) j) ≡ true)
        → value_set_loop dv B less s set itr range
          ≡ ok (insert_all less (read_values dv B s (itr ∷ range)) set)
    unfolding value_set_loop insert_all filter_map
    value_set_loop_lem s k set itr [] h =
        let (w, e) = has_key-eq_true dk k (get_elem? (B.right s) itr) (h itr mem-cons_self) in
        rw (deref-some dv B s itr e, value_set_loop)
          (rw (filter_map-cons-some (value_at (B.right s)) itr [] (value_at-eq_some _ itr e)))
    value_set_loop_lem s k set itr (next ∷ range) h =
        let (w, e) = has_key-eq_true dk k (get_elem? (B.right s) itr) (h itr mem-cons_self) in
        let here = value_at-eq_some (B.right s) itr e in
        rw (deref-some dv B s itr e, value_set_loop)
          (rw (filter_map-cons-some (value_at (B.right s)) itr (next ∷ range) here) (
            value_set_loop_lem s k (insert less w set) next range
              (λ j m. h j (mem-cons_of_mem itr m))))

    pub value_set-values :
        (c : LruCache B) (k : K)
        → IsOrder less
        → ((values dk k (view c) ≡ []) × (value_set dv B less c k ≡ undefined))
          ⊎ ((values dk k (view c) ≢ [])
              × ((set : List V) × (value_set dv B less c k ≡ ok set)
                  × IsAscending less set
                  × ((v : V) → Mem v set ↔ Mem v (values dk k (view c)))))
    unfolding value_set deref filter_map
    value_set-values c k order =
        let s = c.store in
        let perm = read_values-perm dv B s k in
        elim (List-cases (B.equal_range s k)) [
          | inl e ↦ inl (sym (Perm.nil-eq (rw e at perm)), rw (e, value_set))
          | inr (itr, range, e) ↦
              let valid = rw e at (has_key_of_mem-range dv B s k) in
              let (w, at) =
                has_key-eq_true dk k (get_elem? (B.right s) itr) (valid itr mem-cons_self) in
              let first =
                filter_map-cons-some (value_at (B.right s)) itr range
                  (value_at-eq_some (B.right s) itr at) in
              let perm' = rw e at perm in
              inr (
                λ n. cons-ne-nil w _ (sym first ∙ Perm.eq-nil (rw n at perm')),
                (
                  insert_all less (read_values dv B s (itr ∷ range)) [],
                  rw (e, value_set) (value_set_loop_lem s k [] itr range valid),
                  insert_all-IsAscending less (read_values dv B s (itr ∷ range)) [] tt,
                  λ v.
                      let set = mem-insert_all less order v (read_values dv B s (itr ∷ range)) in
                      let same = Perm.mem_iff {a = v} perm' in
                      (λ m. same.0 (set.0 m), λ m. set.1 (same.1 m)),
                ),
              )
        ]

    -- Let the values be strictly totally ordered. Where the key has no entry `valueSet` reads the
    -- end of the range, which is undefined; else it returns exactly the values of the key, in
    -- ascending order.
    pub value_set-cases :
        (c : LruCache B) (k : K)
        → IsOrder less
        → ((contains_key dv B c k ≡ false) × (value_set dv B less c k ≡ undefined))
          ⊎ ((contains_key dv B c k ≡ true)
              × ((set : List V) × (value_set dv B less c k ≡ ok set)
                  × IsAscending less set
                  × ((v : V) → Mem v set ↔ Mem (k, v) (view c))))
    value_set-cases c k order =
        let found = contains_key-values dv B c k in
        elim (value_set-values c k order) [
          | inl (n, u) ↦ elim (Bool-cases (contains_key dv B c k)) [
            | inl t ↦ absurd (found.0 t n)
            | inr f ↦ inl (f, u)
          ]
          | inr (n, (set, e, ascending, members)) ↦ inr (
            found.1 n,
            (
              set,
              e,
              ascending,
              λ v.
                  let here = mem-values dk k v (view c) in
                  (λ m. here.0 ((members v).0 m), λ m. (members v).1 (here.1 m)),
            ),
          )
        ]
