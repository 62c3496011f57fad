-- ===== src/LruTimedCache/Retention.antt =====
-- How long LRUTimedCache.h keeps a value: while it has not expired, it stays for as many further
-- uses as fit beside it.
use mathlib.Core.List.{dec_mem, mem-append_right, mem-cons_self}
use mathlib.Core.HLevel.{⊥_prop}
use mathlib.Core.Logic.{∥∥₁_elim}
use native.Mathlib.Nat.{add-zero, zero-add, add-suc, suc-add}
use ezbake_common.Bimap.{Bimap}
use ezbake_common.Common.{
  ℕ, suc, ◌+◌, ◌*◌, ◌≤◌, ◌<◌, ◌≡◌, sym, ◌⊎◌, inl, inr, refl, ap, ◌∙◌, Bool, true, false, List, [],
  ◌∷◌, Mem, Nodup, Outcome, ok, ◌>>=◌, length, Option-cases, Bool-cases, arith, ◌==◌,
}
use ezbake_common.Entries
use ezbake_common.Entries.Erase.{drop_oldest-drop_entry}
use ezbake_common.Entries.Unique.{put-Nodup, drop_oldest_of_none}
use ezbake_common.Entries.Within.{Within, Room, Within-suc, Within-last}
use ezbake_common.Entries.{oldest, drop_oldest, touch, make_room, drop_entry}
use ezbake_common.LruCache.Retention.{Within-drop_entry, Within-touch, Within-put}
use ezbake_common.LruTimedCache
use ezbake_common.LruTimedCache.Expiry.{expired-stamp}
use ezbake_common.LruTimedCache.Keys.{contains_value-Finds}
use ezbake_common.LruTimedCache.Reads.{view, after_get, after_get-Nodup, get-unexpired, put-stamp}
use ezbake_common.LruTimedCache.{
  CacheValue, LruTimedCache, cache_value_discrete, expired, unexpired, stamp, microseconds,
  end_of_dates,
}
use ezbake_common.StdSet.Laws.{IsOrder}

-- A call that uses an entry, with its reading of the clock.
pub data Use {ℓ} (K V : Type ℓ) : Type ℓ where
  get : ℕ → K → Use K V
  put : ℕ → K → V → Use K V

-- At the reading `now` of the clock what was put at the reading `at` lives: entries do not expire,
-- or at most the expiration less one second has passed, since a timestamp is whole seconds, and the
-- end of the expiration is a date that a ptime holds.
abbrev pub IsAlive : ℕ → ℕ → ℕ → Type 0
IsAlive expiration at now =
    (expiration ≡ 0)
    ⊎ ((now + microseconds ≤ at + expiration * microseconds)
        × (at + expiration * microseconds < end_of_dates))

-- It lives whenever a `get` reads the clock.
abbrev pub Alive {ℓ} : {K V : Type ℓ} → ℕ → ℕ → List (Use K V) → Type 0
Alive expiration at [] = Unit
Alive expiration at (get now k ∷ uses) = IsAlive expiration at now × Alive expiration at uses
Alive expiration at (put now k v ∷ uses) = Alive expiration at uses

not_expired {ℓ} :
    {V : Type ℓ} (expiration at now : ℕ) (v : V)
    → IsAlive expiration at now
    → expired expiration now (stamp at v).timestamp ≡ false
unfolding expired stamp
not_expired expiration at now v (inl z) = ground arith
not_expired expiration at now v (inr (h, bound)) = elim (Bool-cases (expiration == 0)) [
  | inl z ↦ ground arith
  | inr n ↦ (expired-stamp expiration at now v (λ e. ground arith) bound (omega arith)).1 h
]

module _ {ℓ} {K V : Type ℓ} {dk : Discrete K} (dv : Discrete V) (B : Bimap (CacheValue V) dk) where
  unfoldable pub run : LruTimedCache B → List (Use K V) → Outcome (LruTimedCache B)
  unfolding LruTimedCache.get LruTimedCache.put
  run c [] = ok c
  run c (get now k ∷ uses) = do (c', _) ← LruTimedCache.get dv B c now k; run c' uses
  run c (put now k v ∷ uses) = do c' ← LruTimedCache.put dv B c now k v; run c' uses

  -- A `get` that finds no value of its key either finds none at all or drops an expired one.
  Within-after_get :
      (k : K) (cv : CacheValue V) (expiration now : ℕ) (j : K) (n : ℕ) (l : List (K × CacheValue V))
      → expired expiration now cv.timestamp ≡ false
      → Within (k, cv) n l
      → Within (k, cv) (suc n) (after_get dk expiration now j l)
  unfolding after_get unexpired
  Within-after_get k cv expiration now j n l fresh h = elim (Option-cases (oldest dk j l)) [
    | inl o ↦ rw (o, after_get) (rw (drop_oldest_of_none dk j l o) (Within-suc h))
    | inr (w, o) ↦ elim (Bool-cases (expired expiration now w.timestamp)) [
      | inr live ↦
          rw (o, after_get) (rw live (Within-touch dk (cache_value_discrete dv) k cv j l h))
      | inl over ↦
          rw (o, after_get)
            (rw over (
              rw (drop_oldest-drop_entry dk (cache_value_discrete dv) j l o)
                (elim (Within-drop_entry dk (cache_value_discrete dv) k cv j w h) [
                  | inl p ↦
                      let q =
                        ap (λ (e : K × CacheValue V). expired expiration now e.1.timestamp) p in
                      absurd (cc)
                  | inr h' ↦ Within-suc h'
                ])))
    ]
  ]

  run-Within :
      (at : ℕ) (k : K) (v : V) (uses : List (Use K V)) (c : LruTimedCache B) (n : ℕ)
      → Nodup (view c)
      → Room c.base.capacity (n + length uses)
      → Alive c.expiration at uses
      → Within (k, stamp at v) n (view c)
      → (d : LruTimedCache B) × (run c uses ≡ ok d)
        × Nodup (view d)
        × (d.expiration ≡ c.expiration)
        × Within (k, stamp at v) (n + length uses) (view d)
  unfolding run
  run-Within at k v [] c n distinct room fresh h = (c, refl, distinct, refl, rw add-zero h)
  run-Within at k v (get now j ∷ uses) c n distinct room (live, fresh) h =
      let (d, done, left, same, cap) = get-unexpired dv B c now j distinct in
      let room' : Room d.base.capacity (suc n + length uses) =
        rw cap (rw suc-add (rw add-suc at room)) in
      let (d', rest, distinct', same', within) =
        run-Within at k v uses d (suc n)
          (rw left (after_get-Nodup dk c.expiration now j (view c) distinct)) room' (rw same fresh)
          (rw left (
            Within-after_get k (stamp at v) c.expiration now j n (view c)
              (not_expired c.expiration at now v live) h)) in
      (d', rw done rest, distinct', same' ∙ same, rw (add-suc, ← suc-add) within)
  run-Within at k v (put now j w ∷ uses) c n distinct room fresh h =
      let dc = cache_value_discrete dv in
      let (d, done, left, same, cap) = put-stamp dv B c now j w distinct in
      let room' : Room d.base.capacity (suc n + length uses) =
        rw cap (rw suc-add (rw add-suc at room)) in
      let here : Room c.base.capacity (suc n) = elim room [
        | inl z ↦ inl z
        | inr r ↦ inr (omega arith)
      ] in
      let (d', rest, distinct', same', within) =
        run-Within at k v uses d (suc n)
          (rw left (put-Nodup dk dc j (stamp now w) c.base.capacity (view c) distinct)) room'
          (rw same fresh)
          (rw left
            (Within-put dk dc k (stamp at v) c.base.capacity j (stamp now w) n (view c) here h)) in
      (d', rw done rest, distinct', same' ∙ same, rw (add-suc, ← suc-add) within)

  module _ (less : K × CacheValue V → K × CacheValue V → Bool) (order : IsOrder less) where
    -- Let the pairs be distinct and the sets' order a strict total order. A value that is put is
    -- found by `containsValue`, and its entry is still there, after any sequence of fewer than
    -- `capacity` calls of `get` and `put`, or any number of them where the cache has no limit, if it
    -- lives at the readings of the clock in these; all the calls return.
    pub run-contains_value :
        (c : LruTimedCache B) (at : ℕ) (k : K) (v : V) (uses : List (Use K V)) (clock : ℕ → ℕ)
        → Nodup (view c)
        → (c.base.capacity ≡ 0) ⊎ (length uses < c.base.capacity)
        → Alive c.expiration at uses
        → ((i : ℕ) → IsAlive c.expiration at (clock i))
        → (d d' : LruTimedCache B) × (run c (put at k v ∷ uses) ≡ ok d)
          × (LruTimedCache.contains_value dv B less d clock v ≡ ok (d', true))
          × Mem (k, stamp at v) (view d')
    unfolding run Entries.put stamp
    run-contains_value c at k v uses clock distinct room alive now =
        let dc = cache_value_discrete dv in
        let cv = stamp at v in
        let (c₁, done, left, same, cap) = put-stamp dv B c at k v distinct in
        let older = make_room c.base.capacity (drop_entry dk dc k cv (view c)) in
        let (d, ran, distinct', same', w) =
          run-Within at k v uses c₁ 0
            (rw left (put-Nodup dk dc k cv c.base.capacity (view c) distinct))
            (rw (cap, zero-add) room) (rw same alive)
            (rw left (Within-last (Entries.entry_discrete dk dc) (k, cv) older 0)) in
        let m : Mem (k, cv) (view d) = rw w.split (mem-append_right w.before mem-cons_self) in
        let (d', key, there, found, finds, missing) =
          contains_value-Finds dv B less order d clock v distinct' in
        let kept : Mem (k, cv) (view d') =
          elim (dec_mem (Entries.entry_discrete dk dc) (k, cv) (view d')) [
            | yes p ↦ p
            | no n ↦ absurd (
                ∥∥₁_elim (finds.lost_old (k, cv) m n).1 ⊥_prop (λ (i, old).
                  let live = not_expired c.expiration at (clock i) v (now i) in
                  let clash : true ≡ false = sym old ∙ rw (same', same) live in cc))
          ] in
        let yes_there : there ≡ true = elim (Bool-cases there) [
          | inl t ↦ t
          | inr f ↦ absurd (finds.not_found (missing.0 f) (k, cv) refl kept)
        ] in
        (d, d', rw done ran, rw (← yes_there) found, kept)
