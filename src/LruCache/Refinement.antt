-- ===== src/LruCache/Refinement.antt =====
-- LRUCache.h against the list of its entries, the least recently used first. The methods reach no
-- undefined behaviour, and the order of the hashed view shows in no result but that of
-- `remove(key)`.
use mathlib.Core.List.{erase_of_not-mem}
use ezbake_common.Bimap.{Bimap}
use ezbake_common.Common.{
  ℕ, ◌≡◌, refl, sym, ap, ◌∙◌, ◌⊎◌, inl, inr, List, Option, none, some, Mem, Nodup, ok, get_elem?,
  arith, lt-length_of_get_elem?, Bool-cases, not, ◌&&◌, ◌==◌, leb, length, List-cases,
  mem_of_get_elem?,
}
use ezbake_common.Entries.Unique.{drop_entry-erase_idx, drop_oldest_of_none}
use ezbake_common.Entries.{
  oldest, drop_oldest, touch, move_to_end, drop_entry, entry_discrete, make_room,
}
use ezbake_common.Entries
use ezbake_common.LruCache.Iterators.{get_lru_entry-cases, find_entry-cases, deref-some}
use ezbake_common.LruCache.{LruCache, get, pop, put, evict, remove_value, remove_found}

-- The entries of a cache, the least recently used first.
abbrev pub view {ℓ} : {K V : Type ℓ} {dk : Discrete K} {B : Bimap V dk} → LruCache B → List (K × V)
view {B} c = B.right c.store

module _ {ℓ} {K V : Type ℓ} {dk : Discrete K} (dv : Discrete V) (B : Bimap V dk) where
  -- `get` returns the least recently used value of the key, and makes its entry the most recent;
  -- without one it returns none and changes nothing.
  pub get-touch :
      (c : LruCache B) (k : K)
      → (c' : LruCache B) × (get dv B c k ≡ ok (c', oldest dk k (view c)))
        × (view c' ≡ touch dk k (view c))
        × (c'.capacity ≡ c.capacity)
  unfolding get touch move_to_end
  get-touch c k = elim (get_lru_entry-cases dv B c.store k) [
    | inl (o, e) ↦ (c, rw (e, o, get), rw (o, touch), refl)
    | inr (v, p, o, e, at, d) ↦ (
      record c { store = B.relocate_end c.store p },
      rw (e, get) (rw (deref-some dv B c.store p at, o)),
      rw (B.right-relocate_end c.store p (lt-length_of_get_elem? (view c) p at), o, touch)
          (rw (at, move_to_end) (rw d)),
      refl,
    )
  ]

  -- `pop` returns the least recently used value of the key, or none, and drops its entry.
  pub pop-drop_oldest :
      (c : LruCache B) (k : K)
      → (c' : LruCache B) × (pop dv B c k ≡ ok (c', oldest dk k (view c)))
        × (view c' ≡ drop_oldest dk k (view c))
        × (c'.capacity ≡ c.capacity)
  unfolding pop
  pop-drop_oldest c k = elim (get_lru_entry-cases dv B c.store k) [
    | inl (o, e) ↦ (c, rw (e, o, pop), sym (drop_oldest_of_none dk k (view c) o), refl)
    | inr (v, p, o, e, at, d) ↦ (
      record c { store = B.erase c.store p },
      rw (e, pop) (rw (deref-some dv B c.store p at, o)),
      rw (B.right-erase c.store p (lt-length_of_get_elem? (view c) p at)) d,
      refl,
    )
  ]

  evict-make_room :
      (capacity : ℕ) (s : B.Store)
      → (s' : B.Store) × (evict dv B capacity s ≡ ok s')
        × (B.right s' ≡ make_room capacity (B.right s))
  unfolding evict make_room
  evict-make_room capacity s =
      elim (Bool-cases (not (capacity == 0) && leb capacity (length (B.right s)))) [
        | inr e ↦ (s, rw (e, evict), rw (e, make_room))
        | inl e ↦ elim (List-cases (B.right s)) [
          | inl n ↦ absurd (ground (arith, ap length n))
          | inr (x, xs, n) ↦ (
            B.erase s 0,
            rw (e, evict) (rw (deref-some dv B s 0 (ap (λ (l : List (K × V)). get_elem? l 0) n))),
            rw (B.right-erase s 0 (omega (arith, ap length n)), e, make_room),
          )
        ]
      ]

  -- Where the pairs are distinct `put` keeps one entry for the pair, the most recent one, and gives
  -- up the least recently used entry where the cache would exceed its capacity.
  pub put_lem :
      (c : LruCache B) (k : K) (v : V)
      → Nodup (view c)
      → (c' : LruCache B) × (put dv B c k v ≡ ok c')
        × (view c' ≡ Entries.put dk dv c.capacity k v (view c))
        × (c'.capacity ≡ c.capacity)
  unfolding put Entries.put
  put_lem c k v d = elim (find_entry-cases dv B c.store k v) [
    | inl (e, absent) ↦
        let (s, evicted, room) = evict-make_room c.capacity c.store in
        (
          record c { store = B.insert s k v },
          rw (e, put) (rw evicted),
          rw (B.right-insert s k v, room, erase_of_not-mem (entry_discrete dk dv) absent),
          refl,
        )
    | inr (i, e, at) ↦
        let (s, evicted, room) = evict-make_room c.capacity (B.erase c.store i) in
        let kept =
          B.right-erase c.store i (lt-length_of_get_elem? (view c) i at)
          ∙ drop_entry-erase_idx dk dv k v (view c) i d at in
        (
          record c { store = B.insert s k v },
          rw (e, put) (rw evicted),
          rw (B.right-insert s k v, room, kept),
          refl,
        )
  ]

  -- Where the pairs are distinct `remove(key, value)` drops the pair, and reports whether it was
  -- there.
  pub remove_value-drop_entry :
      (c : LruCache B) (k : K) (v : V)
      → Nodup (view c)
      → (c' : LruCache B) × (r : Option V) × (remove_value dv B c k v ≡ ok (c', r))
        × (view c' ≡ drop_entry dk dv k v (view c))
        × (c'.capacity ≡ c.capacity)
        × ((Mem (k, v) (view c) × (r ≡ some v)) ⊎ ((¬ Mem (k, v) (view c)) × (r ≡ none)))
  unfolding remove_value remove_found
  remove_value-drop_entry c k v d = elim (find_entry-cases dv B c.store k v) [
    | inl (e, absent) ↦ (
      c,
      none,
      rw (e, remove_value),
      sym (erase_of_not-mem (entry_discrete dk dv) absent),
      refl,
      inr (absent, refl),
    )
    | inr (i, e, at) ↦ (
      record c { store = B.erase c.store i },
      some v,
      rw (e, remove_value) (rw (deref-some dv B c.store i at)),
      B.right-erase c.store i (lt-length_of_get_elem? (view c) i at)
          ∙ drop_entry-erase_idx dk dv k v (view c) i d at,
      refl,
      inl (mem_of_get_elem? (view c) i at, refl),
    )
  ]
