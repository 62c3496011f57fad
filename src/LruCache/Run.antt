-- ===== src/LruCache/Run.antt =====
-- Sequences of calls of an LRUCache, as the threads that share it make them: each method holds the
-- mutex from start to end, so the methods of all threads form one sequence.
use mathlib.Core.List.{erase-sublist, Nodup-nil}
use mathlib.Core.List.Nodup
use ezbake_common.Bimap.{Bimap}
use ezbake_common.Common.{
  ℕ, ◌^◌, ◌≤◌, ◌<◌, ◌≡◌, ◌≢◌, refl, List, [], ◌∷◌, Option, none, some, Nodup, Outcome, ok, ◌>>=◌,
  length, length-append, arith,
}
use ezbake_common.Entries.Unique.{
  touch-Nodup, put-Nodup, drop_oldest-Sublist, drop_key-Sublist, length-le_of_Sublist,
  length-make_room, length-touch,
}
use ezbake_common.Entries
use ezbake_common.LruCache
use ezbake_common.LruCache.{LruCache}
use ezbake_common.LruCache.Refinement.{
  view, get-touch, pop-drop_oldest, put_lem, remove_value-drop_entry,
}
use ezbake_common.LruCache.Removal.{remove_key-drop_key}

-- The pairs are distinct, and a limited cache is within its capacity, an unsigned int.
pub record IsValid {ℓ} {K V : Type ℓ} {dk : Discrete K} {B : Bimap V dk} (c : LruCache B)
    : Type ℓ where
  pub distinct : Nodup (view c)
  pub bounded : c.capacity ≢ 0 → length (view c) ≤ c.capacity
  pub representable : c.capacity < 2 ^ 32

-- The calls that change the cache.
pub data Call {ℓ} (K V : Type ℓ) : Type ℓ where
  get : K → Call K V
  pop : K → Call K V
  put : K → V → Call K V
  remove_key : K → Call K V
  remove_value : K → V → Call K V
  clear : Call K V

-- What a caller learns: a use of a pair, or the loss of pairs.
pub data Event {ℓ} (K V : Type ℓ) : Type ℓ where
  nothing : Event K V
  used : K → V → Event K V
  dropped : K → V → Event K V
  dropped_key : K → Event K V
  cleared : Event K V

abbrev pub used_if {ℓ} : {K V : Type ℓ} → K → Option V → Event K V
used_if k none = nothing
used_if k (some v) = used k v

abbrev pub dropped_if {ℓ} : {K V : Type ℓ} → K → Option V → Event K V
dropped_if k none = nothing
dropped_if k (some v) = dropped k v

module _ {ℓ} {K V : Type ℓ} {dk : Discrete K} (dv : Discrete V) (B : Bimap V dk) where
  unfoldable pub step : LruCache B → Call K V → Outcome (LruCache B × Event K V)
  step c (get k) = do (c', r) ← LruCache.get dv B c k; ok (c', used_if k r)
  step c (pop k) = do (c', r) ← LruCache.pop dv B c k; ok (c', dropped_if k r)
  step c (put k v) = do c' ← LruCache.put dv B c k v; ok (c', used k v)
  step c (remove_key k) = do (c', _) ← LruCache.remove_key dv B c k; ok (c', dropped_key k)
  step c (remove_value k v) = do (c', r) ← LruCache.remove_value dv B c k v; ok (c', dropped_if k r)
  step c clear = ok (LruCache.clear dv B c, cleared)

  unfoldable pub run : LruCache B → List (Call K V) → Outcome (LruCache B × List (Event K V))
  unfolding step
  run c [] = ok (c, [])
  run c (call ∷ calls) = do
    (c', event) ← step c call
    (c'', events) ← run c' calls
    ok (c'', event ∷ events)

  -- What a call does to the list of entries.
  unfoldable pub apply : ℕ → List (K × V) → Call K V → List (K × V)
  apply capacity l (get k) = Entries.touch dk k l
  apply capacity l (pop k) = Entries.drop_oldest dk k l
  apply capacity l (put k v) = Entries.put dk dv capacity k v l
  apply capacity l (remove_key k) = Entries.drop_key dk k l
  apply capacity l (remove_value k v) = Entries.drop_entry dk dv k v l
  apply capacity l clear = []

  apply-Nodup :
      (capacity : ℕ) (l : List (K × V)) (call : Call K V) → Nodup l → Nodup (apply capacity l call)
  unfolding apply
  apply-Nodup capacity l (get k) d = touch-Nodup dk k l d
  apply-Nodup capacity l (pop k) d = Nodup.sublist (drop_oldest-Sublist dk k l) d
  apply-Nodup capacity l (put k v) d = put-Nodup dk dv k v capacity l d
  apply-Nodup capacity l (remove_key k) d = Nodup.sublist (drop_key-Sublist dk k l) d
  apply-Nodup capacity l (remove_value k v) d =
      Nodup.sublist (erase-sublist (Entries.entry_discrete dk dv) (k, v)) d
  apply-Nodup capacity l clear d = Nodup-nil

  pub length-apply-le :
      (capacity : ℕ) (l : List (K × V)) (call : Call K V)
      → capacity ≢ 0
      → length l ≤ capacity
      → length (apply capacity l call) ≤ capacity
  unfolding apply Entries.put
  length-apply-le capacity l (get k) n h = omega (arith, length-touch dk k l)
  length-apply-le capacity l (pop k) n h =
      let b = length-le_of_Sublist (drop_oldest-Sublist dk k l) in omega arith
  length-apply-le capacity l (put k v) n h =
      let b = length-le_of_Sublist (erase-sublist (Entries.entry_discrete dk dv) (k, v) {l = l}) in
      let kept = Entries.drop_entry dk dv k v l in
      let r = length-make_room capacity kept n (omega arith) in
      omega (arith, length-append (Entries.make_room capacity kept) ((k, v) ∷ []))
  length-apply-le capacity l (remove_key k) n h =
      let b = length-le_of_Sublist (drop_key-Sublist dk k l) in omega arith
  length-apply-le capacity l (remove_value k v) n h =
      let b = length-le_of_Sublist (erase-sublist (Entries.entry_discrete dk dv) (k, v) {l = l}) in
      omega arith
  length-apply-le capacity l clear n h = omega arith

  -- Every call returns, and does to the entries what its specification says.
  step-apply :
      (c : LruCache B) (call : Call K V)
      → Nodup (view c)
      → (c' : LruCache B) × (e : Event K V) × (step c call ≡ ok (c', e))
        × (view c' ≡ apply c.capacity (view c) call)
        × (c'.capacity ≡ c.capacity)
  unfolding step apply LruCache.clear
  step-apply c (get k) d =
      let (c', e, v, n) = get-touch dv B c k in
      (c', used_if k (Entries.oldest dk k (view c)), rw e, v, n)
  step-apply c (pop k) d =
      let (c', e, v, n) = pop-drop_oldest dv B c k in
      (c', dropped_if k (Entries.oldest dk k (view c)), rw e, v, n)
  step-apply c (put k v) d = let (c', e, w, n) = put_lem dv B c k v d in (c', used k v, rw e, w, n)
  step-apply c (remove_key k) d =
      let (c', vs, e, p, w, n) = remove_key-drop_key dv B c k in (c', dropped_key k, rw e, w, n)
  step-apply c (remove_value k v) d =
      let (c', r, e, w, n, found) = remove_value-drop_entry dv B c k v d in
      (c', dropped_if k r, rw e, w, n)
  step-apply c clear d = (LruCache.clear dv B c, cleared, refl, B.right-clear c.store, refl)

  -- A call keeps the pairs distinct and their number within the capacity.
  pub apply-IsValid :
      (c c' : LruCache B) (call : Call K V)
      → view c' ≡ apply c.capacity (view c) call
      → c'.capacity ≡ c.capacity
      → IsValid c
      → IsValid c'
  apply-IsValid c c' call entries same valid = record {
    distinct = rw entries (apply-Nodup c.capacity (view c) call valid.distinct);
    bounded =
        rw (entries, same) (λ n. length-apply-le c.capacity (view c) call n (valid.bounded n));
    representable = rw same valid.representable;
  }

  -- Every call returns, and keeps the pairs distinct and their number within the capacity.
  step-IsValid :
      (c : LruCache B) (call : Call K V)
      → IsValid c
      → (c' : LruCache B) × (e : Event K V) × (step c call ≡ ok (c', e)) × IsValid c'
  step-IsValid c call valid =
      let (c', e, done, entries, same) = step-apply c call valid.distinct in
      (c', e, done, apply-IsValid c c' call entries same valid)

  -- Every sequence of calls on a valid cache returns, and leaves a valid cache.
  pub run-IsValid :
      (calls : List (Call K V)) (c : LruCache B)
      → IsValid c
      → (c' : LruCache B) × (es : List (Event K V)) × (run c calls ≡ ok (c', es)) × IsValid c'
  unfolding run
  run-IsValid [] c valid = (c, [], refl, valid)
  run-IsValid (call ∷ calls) c valid =
      let (c', e, done, valid') = step-IsValid c call valid in
      let (c'', es, rest, valid'') = run-IsValid calls c' valid' in
      (c'', e ∷ es, rw (done, run) (rw rest), valid'')

  pub init-IsValid :
      (capacity : ℕ)
      → capacity < 2 ^ 32
      → IsValid (LruCache.init dv B capacity) × (view (LruCache.init dv B capacity) ≡ [])
  unfolding LruCache.init
  init-IsValid capacity h = (
    record {
      distinct = rw B.right-empty Nodup-nil;
      bounded = λ n. rw B.right-empty (omega arith);
      representable = h;
    },
    B.right-empty,
  )
