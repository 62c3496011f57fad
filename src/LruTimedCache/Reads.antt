-- ===== src/LruTimedCache/Reads.antt =====
-- `get`, `pop` and `put` of LRUTimedCache.h: which value they return, and which entries they leave.
use mathlib.Core.List.Nodup
use ezbake_common.Bimap.{Bimap}
use ezbake_common.Common.{
  ℕ, ◌≡◌, refl, sym, ◌∙◌, ap, inl, inr, true, false, List, ◌⊎◌, Option, none, some, ok, Nodup, Mem,
  Option-cases, Bool-cases,
}
use ezbake_common.Entries.Erase.{drop_entry-touch, mem_of_oldest}
use ezbake_common.Entries.Unique.{touch-Nodup, drop_oldest_of_none, drop_oldest-Sublist}
use ezbake_common.Entries.{oldest, drop_oldest, touch}
use ezbake_common.Entries
use ezbake_common.LruCache.Refinement.{get-touch, pop-drop_oldest, put_lem, remove_value-drop_entry}
use ezbake_common.LruCache.Refinement
use ezbake_common.LruTimedCache.{
  CacheValue, LruTimedCache, stamp, expired, unexpired, get, get_found, pop, put,
  cache_value_discrete,
}

-- The entries of a cache, the least recently used first.
abbrev pub view {ℓ} :
    {K V : Type ℓ} {dk : Discrete K} {B : Bimap (CacheValue V) dk}
    → LruTimedCache B
    → List (K × CacheValue V)
view c = Refinement.view c.base

-- The entries after a `get`: an expired entry that was found is gone.
unfoldable pub after_get {ℓ} :
    {K V : Type ℓ}
    → ((a b : K) → Dec (a ≡ b))
    → ℕ
    → ℕ
    → K
    → List (K × CacheValue V)
    → List (K × CacheValue V)
after_get dk expiration now k l = elim (unexpired expiration now (oldest dk k l)) [
  | none ↦ drop_oldest dk k l
  | some _ ↦ touch dk k l
]

pub after_get-Nodup {ℓ} :
    {K V : Type ℓ} (dk : Discrete K) (expiration now : ℕ) (k : K) (l : List (K × CacheValue V))
    → Nodup l
    → Nodup (after_get dk expiration now k l)
unfolding after_get
after_get-Nodup dk expiration now k l d =
    elim (Option-cases (unexpired expiration now (oldest dk k l))) [
      | inl e ↦ rw (e, after_get) (Nodup.sublist (drop_oldest-Sublist dk k l) d)
      | inr (v, e) ↦ rw (e, after_get) (touch-Nodup dk k l d)
    ]

module _ {ℓ} {K V : Type ℓ} {dk : Discrete K} (dv : Discrete V) (B : Bimap (CacheValue V) dk) where
  get_found-after_get :
      (c c' : LruTimedCache B) (now : ℕ) (k : K)
      → Nodup (view c)
      → view c' ≡ touch dk k (view c)
      → c'.expiration ≡ c.expiration
      → (d : LruTimedCache B) × (get_found dv B c' now k (oldest dk k (view c))
          ≡ ok (d, unexpired c.expiration now (oldest dk k (view c))))
        × (view d ≡ after_get dk c.expiration now k (view c))
        × (d.expiration ≡ c.expiration)
        × (d.base.capacity ≡ c'.base.capacity)
  unfolding get_found after_get unexpired touch
  get_found-after_get c c' now k distinct touched same =
      elim (Option-cases (oldest dk k (view c))) [
        | inl o ↦ (
          c',
          rw (o, get_found),
          touched ∙ rw (o, touch, after_get) (sym (drop_oldest_of_none dk k (view c) o)),
          same,
          refl,
        )
        | inr (cv, o) ↦ elim (Bool-cases (expired c.expiration now cv.timestamp)) [
          | inl old ↦
              let old' : expired c'.expiration now cv.timestamp ≡ true = rw same old in
              let distinct' = rw (← touched) at (touch-Nodup dk k (view c) distinct) in
              let (base, r, done, left, cap, _) =
                remove_value-drop_entry (cache_value_discrete dv) B c'.base k cv distinct' in
              (
                record c' { base = base },
                rw (o, old, get_found) (rw old' (rw done)),
                left
                    ∙ ap (Entries.drop_entry dk (cache_value_discrete dv) k cv) touched
                    ∙ drop_entry-touch dk (cache_value_discrete dv) k (view c) distinct o
                    ∙ rw (o, after_get) (rw old),
                same,
                cap,
              )
          | inr fresh ↦
              let fresh' : expired c'.expiration now cv.timestamp ≡ false = rw same fresh in
              (
                c',
                rw (o, fresh, get_found) (rw fresh'),
                touched ∙ rw (o, after_get) (rw fresh),
                same,
                refl,
              )
        ]
      ]

  -- Where the pairs are distinct `get` returns the least recently used value of the key if that has
  -- not expired, and makes its entry the most recent; an expired one it drops, and returns none.
  pub get-unexpired :
      (c : LruTimedCache B) (now : ℕ) (k : K)
      → Nodup (view c)
      → (d : LruTimedCache B) × (get dv B c now k
          ≡ ok (d, unexpired c.expiration now (oldest dk k (view c))))
        × (view d ≡ after_get dk c.expiration now k (view c))
        × (d.expiration ≡ c.expiration)
        × (d.base.capacity ≡ c.base.capacity)
  unfolding get
  get-unexpired c now k distinct =
      let (base, done, touched, cap) = get-touch (cache_value_discrete dv) B c.base k in
      let (d, e, left, exp, cap') =
        get_found-after_get c (record c { base = base }) now k distinct touched refl in
      (d, rw done e, left, exp, cap' ∙ cap)

  -- `pop` takes out the least recently used entry of the key, and returns its value if that has not
  -- expired.
  pub pop-unexpired :
      (c : LruTimedCache B) (now : ℕ) (k : K)
      → (d : LruTimedCache B) × (pop dv B c now k
          ≡ ok (d, unexpired c.expiration now (oldest dk k (view c))))
        × (view d ≡ drop_oldest dk k (view c))
        × (d.expiration ≡ c.expiration)
        × (d.base.capacity ≡ c.base.capacity)
  unfolding pop
  pop-unexpired c now k =
      let (base, done, left, cap) = pop-drop_oldest (cache_value_discrete dv) B c.base k in
      (record c { base = base }, rw done, left, refl, cap)

  -- Where the pairs are distinct `put` stores the value with the second at which it is put; an
  -- entry is replaced only if it is equal in its timestamp too.
  pub put-stamp :
      (c : LruTimedCache B) (now : ℕ) (k : K) (v : V)
      → Nodup (view c)
      → (d : LruTimedCache B) × (put dv B c now k v ≡ ok d)
        × (view d
            ≡ Entries.put dk (cache_value_discrete dv) c.base.capacity k (stamp now v) (view c))
        × (d.expiration ≡ c.expiration)
        × (d.base.capacity ≡ c.base.capacity)
  unfolding put
  put-stamp c now k v distinct =
      let (base, done, left, cap) =
        put_lem (cache_value_discrete dv) B c.base k (stamp now v) distinct in
      (record c { base = base }, rw done, left, refl, cap)

  unexpired-some :
      (expiration now : ℕ) (k : K) (l : List (K × CacheValue V)) {v : V}
      → unexpired expiration now (oldest dk k l) ≡ some v
      → (timestamp : ℕ) × Mem (k, record { timestamp = timestamp; value = v }) l
        × (expired expiration now timestamp ≡ false)
  unfolding unexpired
  unexpired-some expiration now k l {v} h = elim (Option-cases (oldest dk k l)) [
    | inl o ↦ let e : unexpired {V = V} expiration now none ≡ some v = rw o at h in cc
    | inr (cv, o) ↦ elim (Bool-cases (expired expiration now cv.timestamp)) [
      | inl old ↦ let e : ◌≡◌ {A = Option V} none (some v) = rw (o, old, unexpired) at h in cc
      | inr fresh ↦
          let e : some cv.value ≡ some v = rw (o, fresh, unexpired) at h in
          let q : cv.value ≡ v = cc in (cv.timestamp, rw (← q) (mem_of_oldest dk k l o), fresh)
    ]
  ]

  -- Where the pairs are distinct a value that `get` or `pop` returns is in the cache under the key,
  -- and has not expired.
  pub get_and_pop-fresh :
      (c d : LruTimedCache B) (now : ℕ) (k : K) (v : V)
      → Nodup (view c)
      → (get dv B c now k ≡ ok (d, some v)) ⊎ (pop dv B c now k ≡ ok (d, some v))
      → (timestamp : ℕ) × Mem (k, record { timestamp = timestamp; value = v }) (view c)
        × (expired c.expiration now timestamp ≡ false)
  get_and_pop-fresh c d now k v distinct (inl h) =
      let (d', e, _, _, _) = get-unexpired c now k distinct in
      unexpired-some c.expiration now k (view c) (cc)
  get_and_pop-fresh c d now k v distinct (inr h) =
      let (d', e, _, _, _) = pop-unexpired c now k in
      unexpired-some c.expiration now k (view c) (cc)
