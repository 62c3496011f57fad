-- ===== src/LruCache/Recency.antt =====
-- The eviction order of LRUCache.h: what is cached was used more recently than all that was
-- evicted, after any sequence of calls.
use mathlib.Core.List.{
  append_assoc, dec_mem, erase-sublist, erase_of_not-mem, foldl, Nodup-append, Nodup-nil,
}
use mathlib.Core.List.Nodup
use ezbake_common.Bimap.{Bimap}
use ezbake_common.Common.{
  ℕ, suc, ◌≡◌, refl, sym, ap, ◌∙◌, inl, inr, List, [], ◌∷◌, ◌++◌, some, Nodup, ok, length, arith,
  Mem, Bool-cases, not, ◌&&◌, ◌==◌, leb, Option-cases,
}
use ezbake_common.Entries.Unique.{put-Nodup, drop_key-Sublist, drop_oldest_of_none}
use ezbake_common.Entries.Erase.{
  erase-append_right, erase-append_left, drop_oldest-drop_entry, mem_of_oldest,
}
use ezbake_common.Entries.{
  oldest, drop_oldest, touch, put, make_room, drop_key, drop_entry, entry_discrete,
}
use ezbake_common.LruCache.{LruCache}
use ezbake_common.LruCache
use ezbake_common.LruCache.Refinement.{
  view, get-touch, pop-drop_oldest, put_lem, remove_value-drop_entry,
}
use ezbake_common.LruCache.Removal.{remove_key-drop_key}
use ezbake_common.LruCache.Run.{
  Call, Event, nothing, used, dropped, dropped_key, cleared, step, run, used_if, dropped_if,
}

module _ {ℓ} {A : Type ℓ} where
  -- What makes room leaves an end of the list.
  make_room-suffix :
      (capacity : ℕ) (l : List A) → (pre : List A) × (l ≡ pre ++ make_room capacity l)
  unfolding make_room
  make_room-suffix capacity [] = ([], ground arith)
  make_room-suffix capacity (x ∷ l) =
      elim (Bool-cases (not (capacity == 0) && leb capacity (suc (length l)))) [
        | inl e ↦ (x ∷ [], rw e)
        | inr e ↦ ([], rw e)
      ]

module _ {ℓ} {K V : Type ℓ} (dk : Discrete K) (dv : Discrete V) where
  -- All pairs that were put and not removed since, each at its latest use.
  unfoldable pub note : List (K × V) → Event K V → List (K × V)
  note h nothing = h
  note h (used k v) = drop_entry dk dv k v h ++ (k, v) ∷ []
  note h (dropped k v) = drop_entry dk dv k v h
  note h (dropped_key k) = drop_key dk k h
  note h cleared = []

  drop_key-append :
      (k : K) (xs ys : List (K × V))
      → drop_key dk k (xs ++ ys) ≡ drop_key dk k xs ++ drop_key dk k ys
  unfolding drop_key
  drop_key-append k [] ys = refl
  drop_key-append k (e ∷ xs) ys = ground (arith, drop_key-append k xs ys)

  pub note-Nodup : (h : List (K × V)) (e : Event K V) → Nodup h → Nodup (note h e)
  unfolding note put make_room
  note-Nodup h nothing d = d
  note-Nodup h (used k v) d = put-Nodup dk dv k v 0 h d
  note-Nodup h (dropped k v) d = Nodup.sublist (erase-sublist (entry_discrete dk dv) (k, v)) d
  note-Nodup h (dropped_key k) d = Nodup.sublist (drop_key-Sublist dk k h) d
  note-Nodup h cleared d = Nodup-nil

  -- A list ends with another one.
  abbrev pub EndsWith : List (K × V) → List (K × V) → Type ℓ
  EndsWith h l = (older : List (K × V)) × (h ≡ older ++ l)

  module _ (older l : List (K × V)) (d : Nodup (older ++ l)) (k : K) where
    drop_oldest-EndsWith :
        {v : V}
        → oldest dk k l ≡ some v
        → drop_entry dk dv k v (older ++ l) ≡ older ++ drop_oldest dk k l
    drop_oldest-EndsWith {v} o =
        erase-append_right (entry_discrete dk dv) older l (k, v)
          (λ m. (Nodup-append.0 d).2 (k, v) m (mem_of_oldest dk k l o))
        ∙ ap (◌++◌ older) (sym (drop_oldest-drop_entry dk dv k l o))

    pub touch-EndsWith : EndsWith (note (older ++ l) (used_if k (oldest dk k l))) (touch dk k l)
    unfolding touch note
    touch-EndsWith = elim (Option-cases (oldest dk k l)) [
      | inl o ↦ (older, rw (o, touch))
      | inr (v, o) ↦ (older, rw (o, touch) (rw (drop_oldest-EndsWith o, append_assoc)))
    ]

    pop-EndsWith : EndsWith (note (older ++ l) (dropped_if k (oldest dk k l))) (drop_oldest dk k l)
    unfolding note
    pop-EndsWith = elim (Option-cases (oldest dk k l)) [
      | inl o ↦ (older, rw (o, drop_oldest_of_none dk k l o))
      | inr (v, o) ↦ (older, rw o (drop_oldest-EndsWith o))
    ]

    remove-EndsWith :
        (v : V)
        → Mem (k, v) l
        → EndsWith (drop_entry dk dv k v (older ++ l)) (drop_entry dk dv k v l)
    remove-EndsWith v m = (
      older,
      erase-append_right (entry_discrete dk dv) older l (k, v)
          (λ n. (Nodup-append.0 d).2 (k, v) n m),
    )

    drop_entry-EndsWith :
        (v : V) → EndsWith (drop_entry dk dv k v (older ++ l)) (drop_entry dk dv k v l)
    drop_entry-EndsWith v = elim (dec_mem (entry_discrete dk dv) (k, v) l) [
      | yes m ↦ remove-EndsWith v m
      | no n ↦ (
        drop_entry dk dv k v older,
        rw (erase_of_not-mem (entry_discrete dk dv) n)
            (erase-append_left (entry_discrete dk dv) older l (k, v) n),
      )
    ]

    pub put-EndsWith :
        (capacity : ℕ) (v : V) → EndsWith (note (older ++ l) (used k v)) (put dk dv capacity k v l)
    unfolding note put
    put-EndsWith capacity v =
        let (before, e) = drop_entry-EndsWith v in
        let (evicted, f) = make_room-suffix capacity (drop_entry dk dv k v l) in
        (
          before ++ evicted,
          rw (e, append_assoc, append_assoc)
              (ap (λ (x : List (K × V)). before ++ x)
                (ap (λ (x : List (K × V)). x ++ (k, v) ∷ []) f
                  ∙ append_assoc evicted (make_room capacity (drop_entry dk dv k v l))
                      ((k, v) ∷ []))),
        )

  module _ (B : Bimap V dk) where
    -- The history of the pairs, and the cache after it.
    pub record Tracks (h : List (K × V)) (c : LruCache B) : Type ℓ where
      pub distinct : Nodup h
      pub ends : EndsWith h (view c)

    step-EndsWith :
        (older : List (K × V)) (c : LruCache B) (call : Call K V)
        → Nodup (older ++ view c)
        → (c' : LruCache B) × (e : Event K V) × (step dv B c call ≡ ok (c', e))
          × EndsWith (note (older ++ view c) e) (view c')
    unfolding step note LruCache.clear
    step-EndsWith older c (Call.get k) d =
        let (c', e, w, _) = get-touch dv B c k in
        (c', used_if k (oldest dk k (view c)), rw e, rw w (touch-EndsWith older (view c) d k))
    step-EndsWith older c (Call.pop k) d =
        let (c', e, w, _) = pop-drop_oldest dv B c k in
        (c', dropped_if k (oldest dk k (view c)), rw e, rw w (pop-EndsWith older (view c) d k))
    step-EndsWith older c (Call.put k v) d =
        let (c', e, w, _) = put_lem dv B c k v ((Nodup-append {l₁ = older}).0 d).1 in
        (c', used k v, rw e, rw w (put-EndsWith older (view c) d k c.capacity v))
    step-EndsWith older c (Call.remove_key k) d =
        let (c', vs, e, _, w, _) = remove_key-drop_key dv B c k in
        (c', dropped_key k, rw e, rw w (drop_key dk k older, (drop_key-append k older (view c))))
    step-EndsWith older c (Call.remove_value k v) d =
        let (c', r, e, w, _, found) =
          remove_value-drop_entry dv B c k v ((Nodup-append {l₁ = older}).0 d).1 in
        (
          c',
          dropped_if k r,
          rw e,
          rw w (elim found [
            | inl (m, q) ↦ rw (q, note) (remove-EndsWith older (view c) d k v m)
            | inr (n, q) ↦ rw (q, note, erase_of_not-mem (entry_discrete dk dv) n) (older, refl)
          ]),
        )
    step-EndsWith older c Call.clear d =
        (LruCache.clear dv B c, cleared, refl, rw (B.right-clear c.store) ([], refl))

    -- Every sequence of calls returns. If the cached entries, in their order, are an end of the
    -- history before it, they are an end of the history after it: every pair that was evicted was
    -- last used before all that are cached.
    pub run-Tracks :
        (calls : List (Call K V)) (c : LruCache B) (h : List (K × V))
        → Tracks h c
        → (c' : LruCache B) × (es : List (Event K V)) × (run dv B c calls ≡ ok (c', es))
          × Tracks (foldl note h es) c'
    unfolding run
    run-Tracks [] c h t = (c, [], refl, t)
    run-Tracks (call ∷ calls) c h t =
        let (older, e) = t.ends in
        let (c', event, done, ends) = step-EndsWith older c call (rw e at t.distinct) in
        let t' : Tracks (note h event) c' = record {
          distinct = note-Nodup h event t.distinct;
          ends = rw e ends;
        } in
        let (c'', es, rest, tracks) = run-Tracks calls c' (note h event) t' in
        (c'', event ∷ es, rw (done, run) (rw rest), tracks)
