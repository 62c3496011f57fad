-- ===== src/LruTimedCache/Listed.antt =====
-- The methods of LRUTimedCache.h that read or drop by value, against the plain list of stamped
-- entries.
use mathlib.Core.List.{filter, filter_congr, mem-filter, not-mem-nil}
use ezbake_common.Bimap.{Bimap}
use ezbake_common.Common.{ℕ, ◌≡◌, ap, ◌∙◌, inl, inr, Bool, [], ◌∷◌, map, Nodup, ok, List-cases}
use ezbake_common.Entries.Without.{without, absent, without-Nodup}
use ezbake_common.Entries.{values}
use ezbake_common.LruCache
use ezbake_common.LruCache.Refinement
use ezbake_common.LruCache.Sets
use ezbake_common.LruCache.{LruCache}
use ezbake_common.LruTimedCache
use ezbake_common.LruTimedCache.Live.{get_key_scan-live_key}
use ezbake_common.LruTimedCache.Matching.{matching-Mem}
use ezbake_common.LruTimedCache.Reads.{view}
use ezbake_common.LruTimedCache.Removal.{ed, remove_all-without}
use ezbake_common.LruTimedCache.Spec.{of_pair, of_others, live_key, value_set_of_values}
use ezbake_common.LruTimedCache.{CacheValue, LruTimedCache, cache_value_discrete, get_key_scan}
use ezbake_common.StdSet.Laws.{IsOrder}
use ezbake_common.StdSet.Unique.{insert_all-map, ascending-eq-insert_all}
use ezbake_common.StdSet.{insert_all}

module _ {ℓ} {K V : Type ℓ} {dk : Discrete K} (dv : Discrete V) (B : Bimap (CacheValue V) dk)
    (less : K × CacheValue V → K × CacheValue V → Bool) (order : IsOrder less)
    (c : LruTimedCache B) where
  -- A reverse lookup finds and leaves what the list does.
  pub get_key-live_key :
      (clock : ℕ → ℕ) (v : V)
      → Nodup (view c)
      → (base : LruCache B) × (LruTimedCache.get_key dv B less c clock v
          ≡ ok (record c { base = base }, (live_key dk dv c.expiration clock 0 v (view c)).0))
        × (Refinement.view base ≡ (live_key dk dv c.expiration clock 0 v (view c)).1)
        × (base.capacity ≡ c.base.capacity)
        × Nodup (Refinement.view base)
  unfolding LruTimedCache.get_key
  get_key-live_key clock v distinct =
      let scan = get_key_scan dv B less c.expiration clock 0 v (view c) [] in
      let live =
        get_key_scan-live_key dv B less order c.expiration clock v 0 (view c) [] distinct
          (λ e _. not-mem-nil) in
      let (base, done, left, cap) = remove_all-without dv B scan.1 c.base distinct in
      (
        base,
        rw done (rw live),
        rw (left, live),
        cap,
        rw left (without-Nodup (ed dv B) scan.1 distinct),
      )

  -- `remove(key, value)` drops the entries of the pair and returns their cache values.
  pub remove_value-filter :
      (k : K) (v : V)
      → Nodup (view c)
      → (base : LruCache B) × (LruTimedCache.remove_value dv B less c k v
          ≡ ok (
            record c { base = base },
            map (λ e. e.1) (insert_all less (filter (of_pair dk dv k v) (view c)) []),
          ))
        × (Refinement.view base ≡ filter (of_others dk dv k v) (view c))
        × (base.capacity ≡ c.base.capacity)
        × Nodup (Refinement.view base)
  unfolding LruTimedCache.remove_value without
  remove_value-filter k v distinct =
      let (set, found, members, ascending) = matching-Mem dv B less order k v c.base.store in
      let (base, done, left, cap) = remove_all-without dv B set c.base distinct in
      let same =
        ascending-eq-insert_all less order set (filter (of_pair dk dv k v) (view c)) ascending (λ e.
          (
            λ m. (mem-filter (of_pair dk dv k v)).1 ((members e).0 m),
            λ m. (members e).1 ((mem-filter (of_pair dk dv k v)).0 m),
          )) in
      let others =
        filter_congr (absent (ed dv B) set) (of_others dk dv k v) (view c)
          (λ e m. (λ n p. n ((members e).1 (m, p)), λ n o. n ((members e).0 o).1)) in
      (
        base,
        rw (found, done) (rw same),
        left ∙ others,
        cap,
        rw left (without-Nodup (ed dv B) set distinct),
      )

  -- The pairs without their timestamps.
  pub entry_set-map :
      (less_e : K × V → K × V → Bool)
      → IsOrder less_e
      → LruTimedCache.entry_set dv B less less_e c
        ≡ insert_all less_e
            (map (λ (e : K × CacheValue V). (let p : K × V = (e.0, e.1.value) in p)) (view c))
            []
  unfolding LruTimedCache.entry_set
  entry_set-map less_e order_e =
      let dc = cache_value_discrete dv in
      insert_all-map less_e order_e
        (λ (e : K × CacheValue V). (let p : K × V = (e.0, e.1.value) in p))
        (LruCache.entry_set dc B less c.base) (view c) (Sets.entry_set_lem dc B less c.base order).1

  -- The values of a key without their timestamps, undefined where it has none.
  pub value_set-value_set_of_values :
      (less_c : CacheValue V → CacheValue V → Bool) (less_v : V → V → Bool) (k : K)
      → IsOrder less_c
      → IsOrder less_v
      → LruTimedCache.value_set dv B less_c less_v c k
        ≡ value_set_of_values less_v (values dk k (view c))
  unfolding LruTimedCache.value_set value_set_of_values
  value_set-value_set_of_values less_c less_v k order_c order_v =
      let value_of = λ (x : CacheValue V). x.value in
      elim (Sets.value_set-values (cache_value_discrete dv) B less_c c.base k order_c) [
        | inl (n, u) ↦ rw u (rw n)
        | inr (n, (set, e, _, members)) ↦ elim (List-cases (values dk k (view c))) [
          | inl z ↦ absurd (n z)
          | inr (x, xs, z) ↦
              let same =
                insert_all-map less_v order_v value_of set (x ∷ xs) (λ cv. rw z at (members cv)) in
              rw e (rw (z, value_set_of_values) (ap ok same))
        ]
      ]
