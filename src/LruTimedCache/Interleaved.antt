-- ===== src/LruTimedCache/Interleaved.antt =====
-- `get` of LRUTimedCache.h, which finds an expired value in one critical section and removes it in
-- another: what a `put` between the two may cost.
use mathlib.Core.HLevel.{⊥_prop}
use mathlib.Core.List.{
  Nodup-cons, mem-append, mem-cons, mem-cons_self, mem-cons_of_mem, mem-erase_of_ne, not-mem-nil,
}
use mathlib.Core.Logic.Or
use ezbake_common.Bimap.{Bimap}
use ezbake_common.Common.{
  ℕ, ◌<◌, ◌≡◌, ◌≢◌, sym, ap, ◌∙◌, inl, inr, Bool, true, false, List, [], ◌∷◌, ◌++◌, Option, Mem,
  Nodup, ok, length, Option-cases, Bool-cases, arith,
}
use ezbake_common.Entries
use ezbake_common.Entries.Erase.{drop_oldest-drop_entry}
use ezbake_common.Entries.Unique.{drop_oldest_of_none, put-Nodup, touch-Nodup}
use ezbake_common.Entries.Full.{
  not-mem-rotate, length-snoc, erase-middle, put_at_capacity, put_below_capacity, oldest-head,
  drop_oldest-head, touch-head,
}
use ezbake_common.Entries.{oldest, drop_oldest, touch, make_room, drop_entry, entry_discrete}
use ezbake_common.LruCache.Refinement.{get-touch, remove_value-drop_entry}
use ezbake_common.LruTimedCache
use ezbake_common.LruTimedCache.Readers.{mem-touch}
use ezbake_common.LruTimedCache.Reads.{view, after_get, get-unexpired, put-stamp}
use ezbake_common.LruTimedCache.Sections.{lookup, discard, put, run_section, run_sections}
use ezbake_common.LruTimedCache.{
  CacheValue, LruTimedCache, cache_value_discrete, expired, unexpired, stamp,
}

module _ {ℓ} {K V : Type ℓ} (dk : Discrete K) (dv : Discrete V) where
  -- A `get` of an expired first entry.
  after_get-head :
      (expiration now : ℕ) (k : K) (cv : CacheValue V) (l : List (K × CacheValue V))
      → expired expiration now cv.timestamp ≡ true
      → after_get dk expiration now k ((k, cv) ∷ l) ≡ l
  unfolding after_get unexpired
  after_get-head expiration now k cv l over =
      let dc = cache_value_discrete dv in
      rw (oldest-head dk dc k cv l, after_get) (rw over (drop_oldest-head dk dc k cv l))

  -- A `get` drops no entry that has not expired.
  mem-after_get :
      (expiration now : ℕ) (k : K) (l : List (K × CacheValue V)) (e : K × CacheValue V)
      → Mem e l
      → expired expiration now e.1.timestamp ≡ false
      → Mem e (after_get dk expiration now k l)
  unfolding after_get unexpired
  mem-after_get expiration now k l e m fresh =
      let dc = cache_value_discrete dv in
      elim (Option-cases (oldest dk k l)) [
        | inl o ↦ rw (o, after_get) (rw (drop_oldest_of_none dk k l o) m)
        | inr (cv, o) ↦ elim (Bool-cases (expired expiration now cv.timestamp)) [
          | inr live ↦ rw (o, after_get) (rw live (mem-touch dk dc k l e m))
          | inl over ↦
              let other : e ≢ (k, cv) = λ p.
                let q = ap (λ (x : K × CacheValue V). expired expiration now x.1.timestamp) p in
                cc in
              rw (o, after_get)
                (rw over (
                  rw (drop_oldest-drop_entry dk dc k l o)
                    ((mem-erase_of_ne (entry_discrete dk dc) other).1 m)))
        ]
      ]

module _ {ℓ} {K V : Type ℓ} {dk : Discrete K} (dv : Discrete V) (B : Bimap (CacheValue V) dk)
    (less : K × CacheValue V → K × CacheValue V → Bool) where
  -- A full cache with its first two entries, and a new pair.
  module _ (c : LruTimedCache B) (k : K) (cv : CacheValue V) (f : K × CacheValue V)
      (l : List (K × CacheValue V)) (t : ℕ) (j : K) (w : V) (distinct : Nodup (view c))
      (entries : view c ≡ (k, cv) ∷ f ∷ l) (full : c.base.capacity ≡ length (view c))
      (new : ¬ Mem (j, stamp t w) (view c)) where
    -- What is left of a full cache where another thread's `put` comes between the sections of a `get`
    -- of its first entry.
    interleaved :
        (d : LruTimedCache B) × (run_sections dv B less c (lookup k ∷ put t j w ∷ discard k cv ∷ [])
          ≡ ok d)
        × (view d ≡ l ++ (j, stamp t w) ∷ [])
    unfolding run_sections run_section
    interleaved =
        let dc = cache_value_discrete dv in
        let (base, looked, touched, cap) = get-touch dc B c.base k in
        let c₁ : LruTimedCache B = record c { base = base } in
        let v₁ : view c₁ ≡ f ∷ l ++ (k, cv) ∷ [] =
          touched ∙ ap (touch dk k) entries ∙ touch-head dk dc k cv (f ∷ l) in
        let d₁ = rw (← touched) at (touch-Nodup dk k (view c) distinct) in
        let (c₂, stored, left, _, _) = put-stamp dv B c₁ t j w d₁ in
        let out : ¬ Mem (j, stamp t w) (f ∷ l ++ (k, cv) ∷ []) =
          not-mem-rotate (k, cv) (f ∷ l) (rw entries at new) in
        let v₂ : view c₂ ≡ (l ++ (k, cv) ∷ []) ++ (j, stamp t w) ∷ [] =
          left
          ∙ ap (Entries.put dk dc base.capacity j (stamp t w)) v₁
          ∙ put_at_capacity dk dc base.capacity j (stamp t w) f (l ++ (k, cv) ∷ []) out
              (cap ∙ full ∙ ap length entries ∙ sym (length-snoc f l (k, cv))) in
        let (base₃, r, removed, gone, _, _) =
          remove_value-drop_entry dc B c₂.base k cv
            (rw left (put-Nodup dk dc j (stamp t w) base.capacity (view c₁) d₁)) in
        let (first, _) = Nodup-cons.0 (rw entries at distinct) in
        let later : ¬ Mem (k, cv) ((j, stamp t w) ∷ []) = λ m.
          Or.elim ⊥_prop (mem-cons.0 m) (λ q. new (rw (entries, ← q) mem-cons_self)) not-mem-nil in
        (
          record c₂ { base = base₃ },
          rw looked (rw stored (rw removed)),
          gone
              ∙ ap (drop_entry dk dc k cv) v₂
              ∙ erase-middle (entry_discrete dk dc) (k, cv) (j, stamp t w) l
                  (λ m. first (mem-cons_of_mem f m)) later,
        )

    -- What the same calls leave where the `get` is not interrupted.
    get_then_put :
        (now : ℕ)
        → expired c.expiration now cv.timestamp ≡ true
        → (a b : LruTimedCache B) × (r : Option V) × (LruTimedCache.get dv B c now k ≡ ok (a, r))
          × (LruTimedCache.put dv B a t j w ≡ ok b)
          × Mem f (view b)
    get_then_put now over =
        let dc = cache_value_discrete dv in
        let (a, done, left, _, cap) = get-unexpired dv B c now k distinct in
        let v : view a ≡ f ∷ l =
          left
          ∙ ap (after_get dk c.expiration now k) entries
          ∙ after_get-head dk dv c.expiration now k cv (f ∷ l) over in
        let (_, rest) = Nodup-cons.0 (rw entries at distinct) in
        let (b, stored, left', _, _) = put-stamp dv B a t j w (rw v rest) in
        let out : ¬ Mem (j, stamp t w) (f ∷ l) =
          λ m. new (rw entries (mem-cons_of_mem (k, cv) m)) in
        let room : length (f ∷ l) < a.base.capacity =
          (let e = cap ∙ full ∙ ap length entries in omega arith) in
        let w' =
          left'
          ∙ ap (Entries.put dk dc a.base.capacity j (stamp t w)) v
          ∙ put_below_capacity dk dc a.base.capacity j (stamp t w) (f ∷ l) out room in
        (a, b, _, done, stored, rw w' mem-cons_self)

    put_then_get :
        (now : ℕ)
        → expired c.expiration now f.1.timestamp ≡ false
        → (a b : LruTimedCache B) × (r : Option V) × (LruTimedCache.put dv B c t j w ≡ ok a)
          × (LruTimedCache.get dv B a now k ≡ ok (b, r))
          × Mem f (view b)
    put_then_get now live =
        let dc = cache_value_discrete dv in
        let (a, stored, left, same, _) = put-stamp dv B c t j w distinct in
        let v : view a ≡ (f ∷ l) ++ (j, stamp t w) ∷ [] =
          left
          ∙ ap (Entries.put dk dc c.base.capacity j (stamp t w)) entries
          ∙ put_at_capacity dk dc c.base.capacity j (stamp t w) (k, cv) (f ∷ l) (rw entries at new)
              (full ∙ ap length entries) in
        let distinct' : Nodup (view a) =
          rw left (put-Nodup dk dc j (stamp t w) c.base.capacity (view c) distinct) in
        let (b, done, left', _, _) = get-unexpired dv B a now k distinct' in
        (
          a,
          b,
          _,
          stored,
          done,
          rw left' (
              mem-after_get dk dv a.expiration now k (view a) f (rw v mem-cons_self)
                (rw same live)),
        )

    -- Let the pairs be distinct, the cache full, its first entry expired when a `get` of its key
    -- reads the clock and the second one not, and let the pair that is put be new. Where another
    -- thread's `put` comes between the two sections of the `get`, the second entry is lost; where
    -- the `put` comes before the `get` or after it, that entry stays. All the calls return.
    pub interleaved-not_atomic :
        (now : ℕ)
        → expired c.expiration now cv.timestamp ≡ true
        → expired c.expiration now f.1.timestamp ≡ false
        → ((d : LruTimedCache B) × (run_sections dv B less c
                (lookup k ∷ put t j w ∷ discard k cv ∷ [])
              ≡ ok d)
            × (¬ Mem f (view d)))
          × ((a b : LruTimedCache B) × (r : Option V) × (LruTimedCache.get dv B c now k ≡ ok (a, r))
              × (LruTimedCache.put dv B a t j w ≡ ok b)
              × Mem f (view b))
          × ((a b : LruTimedCache B) × (r : Option V) × (LruTimedCache.put dv B c t j w ≡ ok a)
              × (LruTimedCache.get dv B a now k ≡ ok (b, r))
              × Mem f (view b))
    interleaved-not_atomic now over live =
        let (d, ran, left) = interleaved in
        let (_, rest) = Nodup-cons.0 (rw entries at distinct) in
        let (out, _) = Nodup-cons.0 rest in
        (
          (
            d,
            ran,
            λ m. Or.elim ⊥_prop (mem-append.0 (rw left at m)) out (λ n.
                Or.elim ⊥_prop (mem-cons.0 n)
                  (λ q. new (rw (entries, ← q) (mem-cons_of_mem (k, cv) mem-cons_self)))
                  not-mem-nil),
          ),
          get_then_put now over,
          put_then_get now live,
        )
