-- ===== src/LruCache/Recent.antt =====
-- Which entries LRUCache.h holds: without removals, exactly the pairs that were used last, as many
-- as the capacity.
use mathlib.Core.List.{
  foldl, erase-sublist, dec_mem, perm_cons_erase, erase_of_not-mem, Nodup-append, Nodup-nil,
}
use ezbake_common.Bimap.{Bimap}
use ezbake_common.Common.{
  ℕ, suc, ◌≤◌, ◌≡◌, ◌≢◌, ◌⊎◌, inl, inr, refl, sym, ap, ◌∙◌, not, ◌&&◌, leb, ◌==◌, true, false, List,
  [], ◌∷◌, ◌++◌, map, Mem, Nodup, ok, length, length-append, erase_idx, Option-cases, Bool-cases,
  arith,
}
use ezbake_common.Entries
use ezbake_common.Entries.Erase.{mem_of_oldest}
use ezbake_common.Entries.Unique.{length-touch, length-le_of_Sublist}
use ezbake_common.Entries.Last.{last, last-append, last_of_short}
use ezbake_common.Entries.{oldest, touch, make_room, drop_entry, entry_discrete}
use ezbake_common.LruCache
use ezbake_common.LruCache.Queries.{length_of_perm}
use ezbake_common.LruCache.Recency.{note, note-Nodup, EndsWith, touch-EndsWith, put-EndsWith}
use ezbake_common.LruCache.Refinement.{view, get-touch, put_lem}
use ezbake_common.LruCache.Run.{apply, length-apply-le, Call, Event, used, used_if, step, run}
use ezbake_common.LruCache.Uses.{Use, call_of}
use ezbake_common.LruCache.{LruCache}

module _ {ℓ} {K V : Type ℓ} (dk : Discrete K) (dv : Discrete V) where
  length-drop_entry_of_mem :
      (k : K) (v : V) (l : List (K × V))
      → Mem (k, v) l
      → suc (length (drop_entry dk dv k v l)) ≡ length l
  length-drop_entry_of_mem k v l m = sym (length_of_perm (perm_cons_erase (entry_discrete dk dv) m))

  -- The cache is at its capacity, or holds the whole history.
  abbrev Filled : ℕ → List (K × V) → List (K × V) → Type 0
  Filled capacity h l = (length l ≡ capacity) ⊎ (length h ≤ length l)

  eq_of_EndsWith : (h l : List (K × V)) → EndsWith dk dv h l → length h ≤ length l → h ≡ l
  eq_of_EndsWith h l ([], e) b = e
  eq_of_EndsWith h l (x ∷ older, e) b = absurd (omega (arith, ap length e, length-append older l))

  touch-Filled :
      (capacity : ℕ) (h l : List (K × V)) (k : K)
      → EndsWith dk dv h l
      → Filled capacity h l
      → Filled capacity (note dk dv h (used_if k (oldest dk k l))) (touch dk k l)
  unfolding note
  touch-Filled capacity h l k ends (inl full) = inl (length-touch dk k l ∙ full)
  touch-Filled capacity h l k ends (inr whole) =
      let same = eq_of_EndsWith h l ends whole in
      elim (Option-cases (oldest dk k l)) [
        | inl o ↦ inr (rw (o, note) (omega (arith, length-touch dk k l)))
        | inr (v, o) ↦
            let n = length-drop_entry_of_mem k v l (mem_of_oldest dk k l o) in
            inr (
              rw (o, note)
                (rw same (
                  omega (
                    arith,
                    length-touch dk k l,
                    length-append (drop_entry dk dv k v l) ((k, v) ∷ []),
                  ))))
      ]

  length-put_full :
      (capacity : ℕ) (k : K) (v : V) (l : List (K × V))
      → capacity ≢ 0
      → length l ≡ capacity
      → length (Entries.put dk dv capacity k v l) ≡ capacity
  unfolding Entries.put make_room
  length-put_full capacity k v l limited full = elim (dec_mem (entry_discrete dk dv) (k, v) l) [
    | yes m ↦
        let n = length-drop_entry_of_mem k v l m in
        let kept = drop_entry dk dv k v l in
        let open' : (not (capacity == 0) && leb capacity (length kept)) ≡ false = ground arith in
        rw (open', Entries.put, make_room) (omega (arith, length-append kept ((k, v) ∷ [])))
    | no n ↦
        let test : (not (capacity == 0) && leb capacity (length l)) ≡ true = ground arith in
        rw (erase_of_not-mem (entry_discrete dk dv) n, test, Entries.put, make_room) (tail l full)
  ]
    where
      tail :
          (xs : List (K × V))
          → length xs ≡ capacity
          → length (erase_idx xs 0 ++ (k, v) ∷ []) ≡ capacity
      tail [] e = absurd (limited (sym e))
      tail (x ∷ xs) e = omega (arith, length-append xs ((k, v) ∷ []))

  put-Filled :
      (capacity : ℕ) (h l : List (K × V)) (k : K) (v : V)
      → capacity ≢ 0
      → length l ≤ capacity
      → EndsWith dk dv h l
      → Filled capacity h l
      → Filled capacity (note dk dv h (used k v)) (Entries.put dk dv capacity k v l)
  unfolding note Entries.put make_room
  put-Filled capacity h l k v limited bound ends (inl full) =
      inl (length-put_full capacity k v l limited full)
  put-Filled capacity h l k v limited bound ends (inr whole) =
      elim (Bool-cases (leb capacity (length l))) [
        | inl full ↦ inl (length-put_full capacity k v l limited (ground arith))
        | inr more ↦
            let same = eq_of_EndsWith h l ends whole in
            let kept = drop_entry dk dv k v l in
            let b = length-le_of_Sublist (erase-sublist (entry_discrete dk dv) (k, v) {l = l}) in
            let free : (not (capacity == 0) && leb capacity (length kept)) ≡ false = ground arith in
            inr (rw (same, free, Entries.put, make_room) (omega arith))
      ]

module _ {ℓ} {K V : Type ℓ} {dk : Discrete K} (dv : Discrete V) (B : Bimap V dk) where
  -- What holds of the history and the cache through any uses.
  record Follows (h : List (K × V)) (c : LruCache B) : Type ℓ where
    pub distinct : Nodup h
    pub ends : EndsWith dk dv h (view c)
    pub filled : Filled dk dv c.capacity h (view c)
    pub bound : length (view c) ≤ c.capacity
    pub limited : c.capacity ≢ 0

  step-Follows :
      (h : List (K × V)) (c : LruCache B) (next : Use K V)
      → Follows h c
      → (c' : LruCache B) × (e : Event K V) × (step dv B c (call_of next) ≡ ok (c', e))
        × (c'.capacity ≡ c.capacity)
        × Follows (note dk dv h e) c'
  unfolding step apply
  step-Follows h c (Use.get k) f =
      let (older, split) = f.ends in
      let (c', done, entries, same) = get-touch dv B c k in
      let e = used_if k (oldest dk k (view c)) in
      (
        c',
        e,
        rw done,
        same,
        record {
          distinct = note-Nodup dk dv h e f.distinct;
          ends =
              rw (split, entries) (touch-EndsWith dk dv older (view c) (rw split at f.distinct) k);
          filled = rw (entries, same) (touch-Filled dk dv c.capacity h (view c) k f.ends f.filled);
          bound = rw (entries, same, length-touch dk k (view c)) f.bound;
          limited = rw same f.limited;
        },
      )
  step-Follows h c (Use.put k v) f =
      let (older, split) = f.ends in
      let d = rw split at f.distinct in
      let (c', done, entries, same) = put_lem dv B c k v ((Nodup-append {l₁ = older}).0 d).1 in
      (
        c',
        used k v,
        rw done,
        same,
        record {
          distinct = note-Nodup dk dv h (used k v) f.distinct;
          ends = rw (split, entries) (put-EndsWith dk dv older (view c) d k c.capacity v);
          filled =
              rw (entries, same)
                (put-Filled dk dv c.capacity h (view c) k v f.limited f.bound f.ends f.filled);
          bound =
              rw (entries, same)
                (length-apply-le dv B c.capacity (view c) (Call.put k v) f.limited f.bound);
          limited = rw same f.limited;
        },
      )

  run-Follows :
      (uses : List (Use K V)) (h : List (K × V)) (c : LruCache B)
      → Follows h c
      → (c' : LruCache B) × (es : List (Event K V)) × (run dv B c (map call_of uses) ≡ ok (c', es))
        × (c'.capacity ≡ c.capacity)
        × Follows (foldl (note dk dv) h es) c'
  unfolding run
  run-Follows [] h c f = (c, [], refl, refl, f)
  run-Follows (next ∷ uses) h c f =
      let (c', e, done, same, f') = step-Follows h c next f in
      let (c'', es, rest, same', f'') = run-Follows uses (note dk dv h e) c' f' in
      (c'', e ∷ es, rw done (rw rest), same' ∙ same, f'')

  last-Follows : (h : List (K × V)) (c : LruCache B) → Follows h c → view c ≡ last c.capacity h
  last-Follows h c f = elim f.filled [
    | inl full ↦
        let (older, split) = f.ends in rw (split, ← full) (sym (last-append older (view c)))
    | inr whole ↦
        let same = eq_of_EndsWith dk dv h (view c) f.ends whole in
        rw same (sym (last_of_short c.capacity (view c) f.bound))
  ]

  -- After any sequence of calls of `get` and `put` on a new cache with a limit, the cache holds
  -- exactly the pairs that were used last, as many as its capacity, the least recently used first.
  pub run-last :
      (capacity : ℕ) (uses : List (Use K V))
      → capacity ≢ 0
      → (c' : LruCache B) × (es : List (Event K V)) × (run dv B
            (LruCache.init dv B capacity)
            (map call_of uses)
          ≡ ok (c', es))
        × (view c' ≡ last capacity (foldl (note dk dv) [] es))
  unfolding LruCache.init
  run-last capacity uses limited =
      let c : LruCache B = LruCache.init dv B capacity in
      let start : Follows [] c = record {
        distinct = Nodup-nil;
        ends = rw B.right-empty ([], refl);
        filled = inr (omega arith);
        bound = rw B.right-empty (omega arith);
        limited = limited;
      } in
      let (c', es, done, same, f) = run-Follows uses [] c start in
      (c', es, done, rw same at (last-Follows (foldl (note dk dv) [] es) c' f))
