-- ===== src/LruTimedCache/Sets.antt =====
-- `entrySet` and `valueSet` of LRUTimedCache.h, which show the values without their timestamps,
-- expired ones too.
use mathlib.Core.HLevel.{⊥_prop}
use mathlib.Core.List.{mem-map, not-mem-nil}
use mathlib.Core.Logic.{∥∥₁_elim, ∥∥₁_map}
use ezbake_common.Bimap.{Bimap}
use ezbake_common.Common.{
  ℕ, ◌≡◌, ◌↔◌, ◌⊎◌, inl, inr, refl, sym, ◌∙◌, Bool, true, false, List, [], map, Mem, ok, undefined,
}
use ezbake_common.LruCache
use ezbake_common.LruCache.Sets
use ezbake_common.LruCache.Queries.{contains_key-values, mem-values}
use ezbake_common.LruTimedCache.Reads.{view}
use ezbake_common.LruTimedCache.{
  CacheValue, LruTimedCache, cache_value_discrete, entry_set, value_set,
}
use ezbake_common.StdSet.Laws.{IsOrder, IsAscending, insert_all-IsAscending, mem-insert_all}
use ezbake_common.StdSet.{insert_all}

module _ {ℓ} {K V : Type ℓ} {dk : Discrete K} (dv : Discrete V) (B : Bimap (CacheValue V) dk) where
  -- The cache holds the value under the key, with some timestamp.
  abbrev pub Holds : LruTimedCache B → K → V → Type ℓ
  Holds c k v = ∥ ((t : ℕ) × Mem (k, record { timestamp = t; value = v }) (view c)) ∥₁

  -- Let both sets' orders be strict total orders. `entrySet` holds exactly the pairs that the cache
  -- holds, whatever their timestamps and whether they have expired, in ascending order.
  entry_set-Holds :
      (less_c : K × CacheValue V → K × CacheValue V → Bool) (less_e : K × V → K × V → Bool)
      (c : LruTimedCache B)
      → IsOrder less_c
      → IsOrder less_e
      → IsAscending less_e (entry_set dv B less_c less_e c)
        × ((k : K) (v : V) → Mem (k, v) (entry_set dv B less_c less_e c) ↔ Holds c k v)
  unfolding entry_set
  entry_set-Holds less_c less_e c order_c order_e =
      let base = LruCache.entry_set (cache_value_discrete dv) B less_c c.base in
      let plain = map (λ (e : K × CacheValue V). (let p : K × V = (e.0, e.1.value) in p)) base in
      let (_, members) = Sets.entry_set_lem (cache_value_discrete dv) B less_c c.base order_c in
      (
        insert_all-IsAscending less_e plain [] tt,
        λ k v.
            let set = mem-insert_all less_e order_e (k, v) plain in
            (
              λ m. ∥∥₁_map (mem-map.0 (set.0 m)) (λ (e, n, q).
                  let p : e ≡ (k, record { timestamp = e.1.timestamp; value = v }) = λ i.
                    let p : K × V = q i in
                    (p.0, record { timestamp = e.1.timestamp; value = p.1 }) in
                  (e.1.timestamp, rw p at ((members e).0 n))),
              λ h. ∥∥₁_elim h (hlevel) (λ (t, m).
                  let e : K × CacheValue V = (k, record { timestamp = t; value = v }) in
                  set.1 (mem-map.1 ∣ (e, (members e).1 m, refl) ∣₁)),
            ),
      )

  -- Let both sets' orders be strict total orders. Where the key has no entry `valueSet` is
  -- undefined; else it returns exactly the values that the cache holds under the key, whatever
  -- their timestamps and whether they have expired, in ascending order.
  value_set-Holds :
      (less_c : CacheValue V → CacheValue V → Bool) (less_v : V → V → Bool) (c : LruTimedCache B)
      (k : K)
      → IsOrder less_c
      → IsOrder less_v
      → ((value_set dv B less_c less_v c k ≡ undefined) × ((v : V) → ¬ Holds c k v))
        ⊎ ((set : List V) × (value_set dv B less_c less_v c k ≡ ok set)
            × IsAscending less_v set
            × ((v : V) → Mem v set ↔ Holds c k v))
  unfolding value_set
  value_set-Holds less_c less_v c k order_c order_v =
      let dc = cache_value_discrete dv in
      elim (Sets.value_set-cases dc B less_c c.base k order_c) [
        | inl (missing, u) ↦ inl (
          rw u,
          λ v h. ∥∥₁_elim h ⊥_prop (λ (t, m).
              let vs = (mem-values dk k (record { timestamp = t; value = v }) (view c)).1 m in
              let there = (contains_key-values dc B c.base k).1 (λ e. not-mem-nil (rw e at vs)) in
              let clash : true ≡ false = sym there ∙ missing in absurd (cc)),
        )
        | inr (_, (set, e, _, members)) ↦
            let plain = map (λ (t : CacheValue V). t.value) set in
            inr (
              insert_all less_v plain [],
              rw e,
              insert_all-IsAscending less_v plain [] tt,
              λ v.
                  let s = mem-insert_all less_v order_v v plain in
                  (
                    λ m. ∥∥₁_map (mem-map.0 (s.0 m)) (λ (t, n, q).
                        let p : t ≡ record { timestamp = t.timestamp; value = v } =
                          λ i. record { timestamp = t.timestamp; value = q i } in
                        (t.timestamp, rw p at ((members t).0 n))),
                    λ h. ∥∥₁_elim h (hlevel) (λ (t, m).
                        let x : CacheValue V = record { timestamp = t; value = v } in
                        s.1 (mem-map.1 ∣ (x, (members x).1 m, refl) ∣₁)),
                  ),
            )
      ]
