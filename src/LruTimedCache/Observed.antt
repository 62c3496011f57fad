-- ===== src/LruTimedCache/Observed.antt =====
-- The public methods of LRUTimedCache.h as a caller sees them: every sequence of calls, at any
-- readings of the clock, is answered as the plain list of stamped entries answers it.
use mathlib.Core.List.Nodup
use mathlib.Core.List.{filter}
use mathlib.Core.Quot
use ezbake_common.Bimap.{Bimap}
use ezbake_common.Common.{
  ℕ, ◌≡◌, refl, ap, inl, inr, Bool, List, [], ◌∷◌, map, Nodup, Option-cases, List-cases,
}
use ezbake_common.Entries.Unique.{put-Nodup, drop_oldest-Sublist, drop_key-Sublist}
use ezbake_common.Entries.{oldest, values}
use ezbake_common.LruCache.Observed
use ezbake_common.LruCache.Removal.{remove_key-drop_key}
use ezbake_common.LruCache.Spec
use ezbake_common.LruCache.Spec.{serve, is_some}
use ezbake_common.LruTimedCache
use ezbake_common.LruTimedCache.Handled.{handle, Agrees}
use ezbake_common.LruTimedCache.Listed.{
  get_key-live_key, remove_value-filter, entry_set-map, value_set-value_set_of_values,
}
use ezbake_common.LruTimedCache.Reads.{
  view, after_get-Nodup, get-unexpired, pop-unexpired, put-stamp,
}
use ezbake_common.LruTimedCache.Spec.{
  Request, Answer, done, number, flag, key, value, set, entries, bag, removed, respond, of_pair,
  live_key, value_set_of_values,
}
use ezbake_common.LruTimedCache.{CacheValue, LruTimedCache, cache_value_discrete, unexpired, stamp}
use ezbake_common.StdSet.Laws.{IsOrder}
use ezbake_common.StdSet.{insert_all}

module _ {ℓ} {K V : Type ℓ} {dk : Discrete K} (dv : Discrete V) (B : Bimap (CacheValue V) dk)
    (less_c : CacheValue V → CacheValue V → Bool) (less_v : V → V → Bool)
    (less : K × CacheValue V → K × CacheValue V → Bool) (less_e : K × V → K × V → Bool)
    (order_c : IsOrder less_c) (order_v : IsOrder less_v) (order : IsOrder less)
    (order_e : IsOrder less_e) where
  abbrev Agree : LruTimedCache B → Request K V → Type ℓ
  Agree = Agrees dv B less_c less_v less less_e

  module _ (c : LruTimedCache B) (distinct : Nodup (view c)) where
    -- The methods that look entries up by value, or drop by key and value.
    get_key-Agrees : (clock : ℕ → ℕ) (v : V) → Agree c (Request.get_key clock v)
    unfolding handle respond
    get_key-Agrees clock v =
        let (base, e, w, cap, d) = get_key-live_key dv B less order c clock v distinct in
        inl (
          record c { base = base },
          key (live_key dk dv c.expiration clock 0 v (view c)).0,
          rw e,
          rw w,
          cap,
          refl,
          d,
        )

    contains_value-Agrees : (clock : ℕ → ℕ) (v : V) → Agree c (Request.contains_value clock v)
    unfolding handle respond LruTimedCache.contains_value
    contains_value-Agrees clock v =
        let (base, e, w, cap, d) = get_key-live_key dv B less order c clock v distinct in
        inl (
          record c { base = base },
          flag (is_some (live_key dk dv c.expiration clock 0 v (view c)).0),
          elim (Option-cases (live_key dk dv c.expiration clock 0 v (view c)).0) [
            | inl q ↦ rw e (rw q)
            | inr (k, q) ↦ rw e (rw q)
          ],
          rw w,
          cap,
          refl,
          d,
        )

    remove_value-Agrees : (k : K) (v : V) → Agree c (Request.remove_value k v)
    unfolding handle respond
    remove_value-Agrees k v =
        let (base, e, w, cap, d) = remove_value-filter dv B less order c k v distinct in
        inl (
          record c { base = base },
          removed (map (λ e. e.1) (insert_all less (filter (of_pair dk dv k v) (view c)) [])),
          rw e,
          rw w,
          cap,
          refl,
          d,
        )

    value_set-Agrees : (k : K) → Agree c (Request.value_set k)
    unfolding handle respond value_set_of_values
    value_set-Agrees k =
        let e = value_set-value_set_of_values dv B less order c less_c less_v k order_c order_v in
        elim (List-cases (values dk k (view c))) [
          | inl z ↦ let u = ap (value_set_of_values less_v) z in inr (rw (e, u), rw z)
          | inr (x, xs, z) ↦
              let s = insert_all less_v (map (λ (cv : CacheValue V). cv.value) (x ∷ xs)) [] in
              let u = ap (value_set_of_values less_v) z in
              inl (c, set s, rw (e, u), rw z, refl, refl, distinct)
        ]

    -- The methods of the base class.
    inherited-Agrees :
        (request : Spec.Request K (CacheValue V)) → Agree c (Request.inherited request)
    unfolding handle respond
    inherited-Agrees request =
        elim (Observed.handle-Agrees (cache_value_discrete dv) B less_c less c.base distinct order_c
          order request) [
            | inl (base, a, e, w, n, d) ↦
                inl (record c { base = base }, Answer.inherited a, rw e, rw w, n, refl, d)
            | inr (u, w) ↦ inr (rw u, rw w)
          ]

    -- Every method answers as the list does.
    handle-Agrees : (request : Request K V) → Agree c request
    unfolding handle respond
    handle-Agrees (Request.inherited request) = inherited-Agrees request
    handle-Agrees Request.expiration =
        inl (c, number c.expiration, refl, refl, refl, refl, distinct)
    handle-Agrees Request.entry_set =
        let plain =
          map (λ (e : K × CacheValue V). (let p : K × V = (e.0, e.1.value) in p)) (view c) in
        inl (
          c,
          entries (insert_all less_e plain []),
          rw (entry_set-map dv B less order c less_e order_e),
          refl,
          refl,
          refl,
          distinct,
        )
    handle-Agrees (Request.contains_value clock v) = contains_value-Agrees clock v
    handle-Agrees (Request.get_key clock v) = get_key-Agrees clock v
    handle-Agrees (Request.value_set k) = value_set-Agrees k
    handle-Agrees (Request.remove_key k) =
        let dc = cache_value_discrete dv in
        let (base, vs, e, p, w, n) = remove_key-drop_key dc B c.base k in
        inl (
          record c { base = base },
          bag (Quot.mk (values dk k (view c))),
          rw (e, Quot.sound p),
          rw w,
          n,
          refl,
          rw w (Nodup.sublist (drop_key-Sublist dk k (view c)) distinct),
        )
    handle-Agrees (Request.get now k) =
        let (d, e, w, same, n) = get-unexpired dv B c now k distinct in
        inl (
          d,
          value (unexpired c.expiration now (oldest dk k (view c))),
          rw e,
          rw w,
          n,
          same,
          rw w (after_get-Nodup dk c.expiration now k (view c) distinct),
        )
    handle-Agrees (Request.pop now k) =
        let (d, e, w, same, n) = pop-unexpired dv B c now k in
        inl (
          d,
          value (unexpired c.expiration now (oldest dk k (view c))),
          rw e,
          rw w,
          n,
          same,
          rw w (Nodup.sublist (drop_oldest-Sublist dk k (view c)) distinct),
        )
    handle-Agrees (Request.put now k v) =
        let dc = cache_value_discrete dv in
        let (d, e, w, same, n) = put-stamp dv B c now k v distinct in
        inl (
          d,
          done,
          rw e,
          rw w,
          n,
          same,
          rw w (put-Nodup dk dc k (stamp now v) c.base.capacity (view c) distinct),
        )
    handle-Agrees (Request.remove_value k v) = remove_value-Agrees k v

  -- Let the values, the cache values, the pairs and the stamped pairs be strictly totally ordered,
  -- and the pairs in the cache distinct. Any sequence of calls of the public methods, those of the
  -- base class among them, at any readings of the clock, is answered as the list of the stamped
  -- entries answers it: the answers do not depend on the container, nor on the order of its hashed
  -- view, and the calls leave the defined behaviour where the list says so.
  pub serve-respond_timed :
      (requests : List (Request K V)) (c : LruTimedCache B)
      → Nodup (view c)
      → serve (handle dv B less_c less_v less less_e) c requests
        ≡ serve
            (respond dk dv less_c less_v less less_e c.base.capacity c.expiration)
            (view c)
            requests
  unfolding serve
  serve-respond_timed [] c distinct = refl
  serve-respond_timed (request ∷ requests) c distinct = elim (handle-Agrees c distinct request) [
    | inr (u, w) ↦ rw (u, serve) (rw w)
    | inl (d, a, e, w, n, same, distinct') ↦
        let ih = serve-respond_timed requests d distinct' in rw (e, serve) (rw (w, ih, n, same))
  ]
