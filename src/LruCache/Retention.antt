-- ===== src/LruCache/Retention.antt =====
-- How long LRUCache.h keeps an entry: a pair stays for as many further uses as fit beside it.
use mathlib.Core.List.{mem-append_right, mem-cons_self, not-mem-nil}
use native.Mathlib.Nat.{add-zero, zero-add, add-suc, suc-add}
use ezbake_common.Bimap.{Bimap}
use ezbake_common.Common.{
  ℕ, suc, ◌+◌, ◌<◌, ◌≡◌, ◌⊎◌, inl, inr, refl, true, List, [], ◌∷◌, map, Mem, Nodup, ok, length,
  Option-cases, arith,
}
use ezbake_common.Entries
use ezbake_common.Entries.Erase.{drop_oldest-drop_entry}
use ezbake_common.Entries.Unique.{put-Nodup, touch-Nodup}
use ezbake_common.Entries.Within.{
  Within, Room, Within-suc, Within-erase, Within-append, Within-last, Within-make_room,
}
use ezbake_common.Entries.{
  oldest, drop_oldest, touch, make_room, drop_entry, entry_discrete, values,
}
use ezbake_common.LruCache
use ezbake_common.LruCache.Queries.{contains_key-values, mem-values}
use ezbake_common.LruCache.Refinement.{view, get-touch, put_lem}
use ezbake_common.LruCache.Run.{Call, Event, used, used_if, step, run}
use ezbake_common.LruCache.Uses.{Use, call_of}
use ezbake_common.LruCache.{LruCache}

module _ {ℓ} {K V : Type ℓ} (dk : Discrete K) (dv : Discrete V) (k : K) (v : V) where
  -- A use of any pair takes one place behind (k, v), or moves that to the end.
  pub Within-drop_entry :
      (j : K) (w : V) {n : ℕ} {l : List (K × V)}
      → Within (k, v) n l
      → (◌≡◌ {A = K × V} (j, w) (k, v)) ⊎ Within (k, v) n (drop_entry dk dv j w l)
  Within-drop_entry j w {n} {l} h = elim (entry_discrete dk dv (j, w) (k, v)) [
    | yes p ↦ inl p
    | no o ↦
        inr (Within-erase (entry_discrete dk dv) (k, v) (j, w) h.before h.after l n o h.split h.few)
  ]

  pub Within-touch :
      (j : K) {n : ℕ} (l : List (K × V)) → Within (k, v) n l → Within (k, v) (suc n) (touch dk j l)
  unfolding touch
  Within-touch j {n} l h = elim (Option-cases (oldest dk j l)) [
    | inl o ↦ rw (o, touch) (Within-suc h)
    | inr (w, o) ↦
        rw (o, touch)
          (rw (drop_oldest-drop_entry dk dv j l o) (elim (Within-drop_entry j w h) [
            | inl p ↦
                rw p (Within-last (entry_discrete dk dv) (k, v) (drop_entry dk dv k v l) (suc n))
            | inr h' ↦ Within-append (entry_discrete dk dv) (k, v) (j, w) h'
          ]))
  ]

  pub Within-put :
      (capacity : ℕ) (j : K) (w : V) (n : ℕ) (l : List (K × V))
      → Room capacity (suc n)
      → Within (k, v) n l
      → Within (k, v) (suc n) (Entries.put dk dv capacity j w l)
  unfolding Entries.put
  Within-put capacity j w n l room h = elim (Within-drop_entry j w h) [
    | inl p ↦ rw p (
        Within-last (entry_discrete dk dv) (k, v) (make_room capacity (drop_entry dk dv k v l))
          (suc n))
    | inr h' ↦
        Within-append (entry_discrete dk dv) (k, v) (j, w)
          (Within-make_room (entry_discrete dk dv) (k, v) capacity n (drop_entry dk dv j w l) room
            h')
  ]

module _ {ℓ} {K V : Type ℓ} {dk : Discrete K} (dv : Discrete V) (B : Bimap V dk) (k : K)
    (v : V) where
  run-Within :
      (uses : List (Use K V)) (c : LruCache B) (n : ℕ)
      → Nodup (view c)
      → Room c.capacity (n + length uses)
      → Within (k, v) n (view c)
      → (c' : LruCache B) × (es : List (Event K V)) × (run dv B c (map call_of uses) ≡ ok (c', es))
        × Within (k, v) (n + length uses) (view c')
  unfolding run step
  run-Within [] c n d room h = (c, [], refl, rw add-zero h)
  run-Within (Use.get j ∷ uses) c n d room h =
      let (c', done, entries, same) = get-touch dv B c j in
      let room' : Room c'.capacity (suc n + length uses) =
        rw same (rw suc-add (rw add-suc at room)) in
      let (c'', es, rest, within) =
        run-Within uses c' (suc n) (rw entries (touch-Nodup dk j (view c) d)) room'
          (rw entries (Within-touch dk dv k v j (view c) h)) in
      (
        c'',
        used_if j (oldest dk j (view c)) ∷ es,
        rw done (rw rest),
        rw (add-suc, ← suc-add) within,
      )
  run-Within (Use.put j w ∷ uses) c n d room h =
      let (c', done, entries, same) = put_lem dv B c j w d in
      let room' : Room c'.capacity (suc n + length uses) =
        rw same (rw suc-add (rw add-suc at room)) in
      let now : Room c.capacity (suc n) = elim room [ inl z ↦ inl z | inr r ↦ inr (omega arith) ] in
      let (c'', es, rest, within) =
        run-Within uses c' (suc n) (rw entries (put-Nodup dk dv j w c.capacity (view c) d)) room'
          (rw entries (Within-put dk dv k v c.capacity j w n (view c) now h)) in
      (c'', used j w ∷ es, rw done (rw rest), rw (add-suc, ← suc-add) within)

  -- A pair that is put into a cache with distinct pairs is still there, and its key is found, after
  -- any sequence of fewer than `capacity` calls of `get` and `put`; after any number of them where
  -- the cache has no limit.
  pub run-retains :
      (uses : List (Use K V)) (c : LruCache B)
      → Nodup (view c)
      → (c.capacity ≡ 0) ⊎ (length uses < c.capacity)
      → (c' : LruCache B) × (es : List (Event K V)) × (run dv B c (Call.put k v ∷ map call_of uses)
          ≡ ok (c', es))
        × Mem (k, v) (view c')
        × (LruCache.contains_key dv B c' k ≡ true)
  unfolding run step Entries.put
  run-retains uses c d room =
      let (c₁, done, entries, same) = put_lem dv B c k v d in
      let rest = make_room c.capacity (drop_entry dk dv k v (view c)) in
      let start : Within (k, v) 0 (view c₁) =
        rw entries (Within-last (entry_discrete dk dv) (k, v) rest 0) in
      let room' : Room c₁.capacity (0 + length uses) = rw (same, zero-add) room in
      let (c', es, left, w) =
        run-Within uses c₁ 0 (rw entries (put-Nodup dk dv k v c.capacity (view c) d)) room' start in
      let there : Mem (k, v) (view c') = rw w.split (mem-append_right w.before mem-cons_self) in
      (
        c',
        used k v ∷ es,
        rw done (rw left),
        there,
        (contains_key-values dv B c' k).1
            (λ e. let m = (mem-values dk k v (view c')).1 there in not-mem-nil (rw e at m)),
      )
