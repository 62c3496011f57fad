-- ===== src/LruTimedCache/Readers.antt =====
-- `get` of LRUTimedCache.h, called by several threads: each call is a lookup and then what it does
-- with the value that it found, and other calls' halves may run between the two.
use mathlib.Core.List.Nodup
use mathlib.Core.List.{
  erase-sublist, mem-append_left, mem-append_right, mem-cons_self, mem-erase_of_ne,
}
use ezbake_common.Bimap.{Bimap}
use ezbake_common.Common.{
  ℕ, suc, ◌≡◌, ◌≢◌, refl, ap, inl, inr, false, List, [], ◌∷◌, ◌++◌, Option, none, some, Mem, Nodup,
  Outcome, ok, ◌>>=◌, get_elem?, Option-cases, Bool-cases,
}
use ezbake_common.Entries.Erase.{drop_oldest-drop_entry}
use ezbake_common.Entries.Unique.{touch-Nodup}
use ezbake_common.Entries.{oldest, touch, drop_entry, entry_discrete}
use ezbake_common.LruCache
use ezbake_common.LruCache.Refinement.{get-touch, remove_value-drop_entry}
use ezbake_common.LruTimedCache.Reads.{view}
use ezbake_common.LruTimedCache.{
  CacheValue, LruTimedCache, cache_value_discrete, expired, get_found,
}
use ezbake_common.Text.{take, drop}

pub mem-touch {ℓ} :
    {K V : Type ℓ} (dk : Discrete K) (dv : Discrete V) (k : K) (l : List (K × V)) (e : K × V)
    → Mem e l
    → Mem e (touch dk k l)
unfolding touch
mem-touch dk dv k l e m = elim (Option-cases (oldest dk k l)) [
  | inl o ↦ rw (o, touch) m
  | inr (v, o) ↦
      rw (o, touch, drop_oldest-drop_entry dk dv k l o)
        (elim (entry_discrete dk dv e (k, v)) [
          | yes p ↦ mem-append_right (drop_entry dk dv k v l) (rw p mem-cons_self)
          | no n ↦ mem-append_left ((k, v) ∷ []) ((mem-erase_of_ne (entry_discrete dk dv) n).1 m)
        ])
]

-- A thread begins a `get` of a key, or the call that began as the one of a number among those that
-- have not ended goes on, with its reading of the clock, and ends.
pub data Step {ℓ} (K : Type ℓ) : Type ℓ where
  begins : K → Step K
  ends : ℕ → ℕ → Step K

-- A call that has not ended: its key, and the value that it found.
abbrev pub Pending {ℓ} : Type ℓ → Type ℓ → Type ℓ
Pending K V = K × Option (CacheValue V)

-- The entry has not expired at the clock readings of the steps.
abbrev pub Fresh {ℓ} : {K : Type ℓ} → ℕ → ℕ → List (Step K) → Type 0
Fresh expiration timestamp [] = Unit
Fresh expiration timestamp (begins k ∷ steps) = Fresh expiration timestamp steps
Fresh expiration timestamp (ends i now ∷ steps) =
    (expired expiration now timestamp ≡ false) × Fresh expiration timestamp steps

module _ {ℓ} {K V : Type ℓ} {dk : Discrete K} (dv : Discrete V) (B : Bimap (CacheValue V) dk) where
  abbrev pub State : Type ℓ
  State = LruTimedCache B × List (Pending K V)

  unfoldable pub step : LruTimedCache B → List (Pending K V) → Step K → Outcome State
  unfolding LruCache.get get_found
  step c pending (begins k) = do
    (base, found) ← LruCache.get (cache_value_discrete dv) B c.base k
    ok (record c { base = base }, (k, found) ∷ pending)
  step c pending (ends i now) = elim (get_elem? pending i) [
    | none ↦ ok (c, pending)
    | some (k, found) ↦ do
      (c', _) ← get_found dv B c now k found
      ok (c', take i pending ++ drop (suc i) pending)
  ]

  unfoldable pub run_steps : LruTimedCache B → List (Pending K V) → List (Step K) → Outcome State
  unfolding step
  run_steps c pending [] = ok (c, pending)
  run_steps c pending (s ∷ steps) = do
    (c', pending') ← step c pending s
    run_steps c' pending' steps

  -- What a call does with the value that it found leaves an entry that has not expired.
  get_found-Mem :
      (c : LruTimedCache B) (now : ℕ) (k : K) (found : Option (CacheValue V)) (e : K × CacheValue V)
      → Nodup (view c)
      → Mem e (view c)
      → expired c.expiration now e.1.timestamp ≡ false
      → (d : LruTimedCache B) × (r : Option V) × (get_found dv B c now k found ≡ ok (d, r))
        × Nodup (view d)
        × Mem e (view d)
        × (d.expiration ≡ c.expiration)
  unfolding get_found
  get_found-Mem c now k none e distinct m fresh = (c, none, refl, distinct, m, refl)
  get_found-Mem c now k (some cv) e distinct m fresh =
      elim (Bool-cases (expired c.expiration now cv.timestamp)) [
        | inr live ↦ (c, some cv.value, rw (live, get_found) refl, distinct, m, refl)
        | inl old ↦
            let dc = cache_value_discrete dv in
            let (base, r, done, left, _, _) = remove_value-drop_entry dc B c.base k cv distinct in
            let other : e ≢ (k, cv) = λ p.
              let q = ap (λ (x : K × CacheValue V). expired c.expiration now x.1.timestamp) p in
              cc in
            (
              record c { base = base },
              none,
              rw (old, get_found) (rw done),
              rw left (Nodup.sublist (erase-sublist (entry_discrete dk dc) (k, cv)) distinct),
              rw left ((mem-erase_of_ne (entry_discrete dk dc) other).1 m),
              refl,
            )
      ]

  step-Mem :
      (c : LruTimedCache B) (pending : List (Pending K V)) (s : Step K) (e : K × CacheValue V)
      → Nodup (view c)
      → Mem e (view c)
      → Fresh c.expiration e.1.timestamp (s ∷ [])
      → (d : LruTimedCache B) × (rest : List (Pending K V)) × (step c pending s ≡ ok (d, rest))
        × Nodup (view d)
        × Mem e (view d)
        × (d.expiration ≡ c.expiration)
  unfolding step
  step-Mem c pending (begins k) e distinct m fresh =
      let dc = cache_value_discrete dv in
      let (base, done, touched, _) = get-touch dc B c.base k in
      (
        record c { base = base },
        (k, oldest dk k (view c)) ∷ pending,
        rw done,
        rw touched (touch-Nodup dk k (view c) distinct),
        rw touched (mem-touch dk dc k (view c) e m),
        refl,
      )
  step-Mem c pending (ends i now) e distinct m (fresh, _) =
      elim (Option-cases (get_elem? pending i)) [
        | inl none_left ↦ (c, pending, rw (none_left, step) refl, distinct, m, refl)
        | inr ((k, found), there) ↦
            let (d, r, done, distinct', m', same) =
              get_found-Mem c now k found e distinct m fresh in
            (
              d,
              take i pending ++ drop (suc i) pending,
              rw (there, step) (rw done),
              distinct',
              m',
              same,
            )
      ]

  -- Where the pairs are distinct: any number of threads that call `get`, in any interleaving of the
  -- lookups and of what follows them, lose no entry that has not expired at their readings of the
  -- clock; all the steps return.
  pub run_steps-Mem :
      (steps : List (Step K)) (c : LruTimedCache B) (pending : List (Pending K V))
      (e : K × CacheValue V)
      → Nodup (view c)
      → Mem e (view c)
      → Fresh c.expiration e.1.timestamp steps
      → (d : LruTimedCache B) × (rest : List (Pending K V)) × (run_steps c pending steps
          ≡ ok (d, rest))
        × Mem e (view d)
  unfolding run_steps
  run_steps-Mem [] c pending e distinct m fresh = (c, pending, refl, m)
  run_steps-Mem (begins k ∷ steps) c pending e distinct m fresh =
      let (c', pending', done, distinct', m', same) =
        step-Mem c pending (begins k) e distinct m tt in
      let (d, rest, ran, kept) = run_steps-Mem steps c' pending' e distinct' m' (rw same fresh) in
      (d, rest, rw (done, run_steps) ran, kept)
  run_steps-Mem (ends i now ∷ steps) c pending e distinct m (live, fresh) =
      let (c', pending', done, distinct', m', same) =
        step-Mem c pending (ends i now) e distinct m (live, tt) in
      let (d, rest, ran, kept) = run_steps-Mem steps c' pending' e distinct' m' (rw same fresh) in
      (d, rest, rw (done, run_steps) ran, kept)
