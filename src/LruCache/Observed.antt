-- ===== src/LruCache/Observed.antt =====
-- The public methods of LRUCache.h as a caller sees them: every sequence of calls is answered as
-- the plain list of entries answers it, whatever container holds them.
use mathlib.Core.List.Nodup
use mathlib.Core.List.{Nodup-nil, dec_mem, erase-sublist}
use mathlib.Core.Quot
use ezbake_common.Bimap.{Bimap}
use ezbake_common.Common.{
  ◌≡◌, refl, sym, ap, ◌∙◌, inl, inr, if_pos, if_neg, Bool, true, false, List, [], ◌∷◌, Option,
  Nodup, ok, Option-cases, List-cases, ap,
}
use ezbake_common.Entries.Unique.{touch-Nodup, put-Nodup, drop_oldest-Sublist, drop_key-Sublist}
use ezbake_common.Entries.{oldest, values, entry_discrete}
use ezbake_common.LruCache
use ezbake_common.LruCache.Queries.{value_range-values}
use ezbake_common.LruCache.Refinement.{
  view, get-touch, pop-drop_oldest, put_lem, remove_value-drop_entry,
}
use ezbake_common.LruCache.Removal.{remove_key-drop_key}
use ezbake_common.LruCache.Sets.{value_set-values}
use ezbake_common.LruCache.Spec.{
  Request, Answer, done, number, flag, key, value, set, entries, is_some, serve, respond,
  value_set_of_values,
}
use ezbake_common.LruCache.{LruCache, key_of}
use ezbake_common.StdSet.Laws.{IsOrder}
use ezbake_common.StdSet.Unique.{insert_all-perm, ascending-eq-insert_all}
use ezbake_common.StdSet.{insert_all}
use ezbake_common.LruCache.Handled.{handle, key_of-key_with, contains_key-oldest, Agrees}

module _ {ℓ} {K V : Type ℓ} {dk : Discrete K} (dv : Discrete V) (B : Bimap V dk)
    (less_v : V → V → Bool) (less_e : K × V → K × V → Bool) where
  -- The answers that read the cache only.
  module _ (c : LruCache B) (distinct : Nodup (view c)) where
    get_key-Agrees : (v : V) → Agrees dv B less_v less_e c (Request.get_key v)
    unfolding LruCache.get_key handle respond
    get_key-Agrees v = inl (
      c,
      key (key_of dv B v (view c)),
      refl,
      ap (λ (k : Option K). ok (view c, key k))
          (sym (key_of-key_with dv B less_v less_e c.capacity v (view c))),
      refl,
      distinct,
    )

    contains_value-Agrees : (v : V) → Agrees dv B less_v less_e c (Request.contains_value v)
    unfolding LruCache.contains_value LruCache.get_key handle respond
    contains_value-Agrees v = elim (Option-cases (key_of dv B v (view c))) [
      | inl e ↦
          let f = sym (key_of-key_with dv B less_v less_e c.capacity v (view c)) ∙ e in
          inl (c, flag false, rw (e, LruCache.contains_value), rw f, refl, distinct)
      | inr (k, e) ↦
          let f = sym (key_of-key_with dv B less_v less_e c.capacity v (view c)) ∙ e in
          inl (c, flag true, rw (e, LruCache.contains_value), rw f, refl, distinct)
    ]

    entry_set-Agrees : IsOrder less_e → Agrees dv B less_v less_e c Request.entry_set
    unfolding LruCache.entry_set handle respond
    entry_set-Agrees order = inl (
      c,
      entries (insert_all less_e (B.left c.store) []),
      refl,
      ap (λ (s : List (K × V)). ok (view c, entries s))
          (sym (insert_all-perm less_e order (B.left-right c.store))),
      refl,
      distinct,
    )

    value_set-Agrees : IsOrder less_v → (k : K) → Agrees dv B less_v less_e c (Request.value_set k)
    unfolding value_set_of_values handle respond
    value_set-Agrees order k = elim (value_set-values dv B less_v c k order) [
      | inl (n, u) ↦ inr (rw u, rw (n, value_set_of_values))
      | inr (n, (s, e, ascending, members)) ↦ elim (List-cases (values dk k (view c))) [
        | inl z ↦ absurd (n z)
        | inr (v, vs, z) ↦
            let same =
              sym
                (ascending-eq-insert_all less_v order s (values dk k (view c)) ascending members) in
            inl (
              c,
              set s,
              rw e,
              rw (z, value_set_of_values) (ap (λ (t : List V). ok (view c, set t)) (rw z at same)),
              refl,
              distinct,
            )
      ]
    ]

    -- Every method answers as the list does.
    pub handle-Agrees :
        IsOrder less_v
        → IsOrder less_e
        → (request : Request K V) → Agrees dv B less_v less_e c request
    unfolding handle respond LruCache.size LruCache.is_empty LruCache.is_full LruCache.clear
    handle-Agrees order_v order_e Request.capacity =
        inl (c, number c.capacity, refl, refl, refl, distinct)
    handle-Agrees order_v order_e Request.size =
        inl (c, number (LruCache.size dv B c), refl, refl, refl, distinct)
    handle-Agrees order_v order_e Request.is_empty =
        inl (c, flag (LruCache.is_empty dv B c), refl, refl, refl, distinct)
    handle-Agrees order_v order_e Request.is_full =
        inl (c, flag (LruCache.is_full dv B c), refl, refl, refl, distinct)
    handle-Agrees order_v order_e (Request.contains_key k) = inl (
      c,
      flag (is_some (oldest dk k (view c))),
      rw (contains_key-oldest dv B less_v less_e c k),
      refl,
      refl,
      distinct,
    )
    handle-Agrees order_v order_e (Request.value_range k) = inl (
      c,
      number (LruCache.value_range dv B c k),
      refl,
      rw (value_range-values dv B c k),
      refl,
      distinct,
    )
    handle-Agrees order_v order_e (Request.contains_value v) = contains_value-Agrees v
    handle-Agrees order_v order_e (Request.get_key v) = get_key-Agrees v
    handle-Agrees order_v order_e Request.entry_set = entry_set-Agrees order_e
    handle-Agrees order_v order_e (Request.value_set k) = value_set-Agrees order_v k
    handle-Agrees order_v order_e (Request.get k) =
        let (c', e, w, n) = get-touch dv B c k in
        inl (
          c',
          value (oldest dk k (view c)),
          rw e,
          rw w,
          n,
          rw w (touch-Nodup dk k (view c) distinct),
        )
    handle-Agrees order_v order_e (Request.pop k) =
        let (c', e, w, n) = pop-drop_oldest dv B c k in
        inl (
          c',
          value (oldest dk k (view c)),
          rw e,
          rw w,
          n,
          rw w (Nodup.sublist (drop_oldest-Sublist dk k (view c)) distinct),
        )
    handle-Agrees order_v order_e (Request.remove_key k) =
        let (c', vs, e, p, w, n) = remove_key-drop_key dv B c k in
        inl (
          c',
          Answer.values (Quot.mk (values dk k (view c))),
          rw (e, Quot.sound p),
          rw w,
          n,
          rw w (Nodup.sublist (drop_key-Sublist dk k (view c)) distinct),
        )
    handle-Agrees order_v order_e (Request.put k v) =
        let (c', e, w, n) = put_lem dv B c k v distinct in
        inl (c', done, rw e, rw w, n, rw w (put-Nodup dk dv k v c.capacity (view c) distinct))
    handle-Agrees order_v order_e (Request.remove_value k v) =
        let (c', r, e, w, n, found) = remove_value-drop_entry dv B c k v distinct in
        inl (
          c',
          value r,
          rw e,
          elim found [
            | inl (m, q) ↦ rw (q, w, if_pos (dec_mem (entry_discrete dk dv) (k, v) (view c)) m)
            | inr (m, q) ↦ rw (q, w, if_neg (dec_mem (entry_discrete dk dv) (k, v) (view c)) m)
          ],
          n,
          rw w (Nodup.sublist (erase-sublist (entry_discrete dk dv) (k, v)) distinct),
        )
    handle-Agrees order_v order_e Request.clear = inl (
      LruCache.clear dv B c,
      done,
      refl,
      rw (B.right-clear c.store),
      refl,
      rw (B.right-clear c.store) Nodup-nil,
    )

  -- Let the values and the pairs be strictly totally ordered, and the pairs in the cache distinct.
  -- Any sequence of calls of the public methods is answered as the list of the entries answers it:
  -- the answers do not depend on the container, nor on the order of its hashed view, and the calls
  -- leave the defined behaviour where the list says so.
  pub serve-respond :
      IsOrder less_v
      → IsOrder less_e
      → (requests : List (Request K V)) (c : LruCache B) → Nodup (view c)
      → serve (handle dv B less_v less_e) c requests
        ≡ serve (respond dk dv less_v less_e c.capacity) (view c) requests
  unfolding serve
  serve-respond order_v order_e [] c distinct = refl
  serve-respond order_v order_e (request ∷ requests) c distinct =
      elim (handle-Agrees c distinct order_v order_e request) [
        | inr (u, w) ↦ rw (u, serve) (rw w)
        | inl (c', a, e, w, n, distinct') ↦
            let ih = serve-respond order_v order_e requests c' distinct' in
            rw (e, serve) (rw (w, ih, n))
      ]
