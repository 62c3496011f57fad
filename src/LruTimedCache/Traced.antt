-- ===== src/LruTimedCache/Traced.antt =====
-- One critical section of LRUTimedCache.h: it returns, keeps the cache valid, and brings in no
-- entry but the one that a `put` stamps.
use mathlib.Core.List.{mem-append, mem-cons, mem_of_mem-erase, not-mem-nil, Mem-prop}
use mathlib.Core.List.Sublist
use mathlib.Core.Logic.Or
use mathlib.Core.Logic.{◌∨₁◌}
use ezbake_common.Bimap.{Bimap}
use ezbake_common.Common.{
  ℕ, ◌≡◌, inl, inr, refl, sym, ap, ◌∙◌, Bool, List, [], ◌∷◌, Option, none, some, Mem, ok,
  Option-cases,
}
use ezbake_common.Entries
use ezbake_common.Entries.Erase.{mem_of_oldest}
use ezbake_common.Entries.Unique.{drop_oldest-Sublist, drop_key-Sublist, make_room-Sublist}
use ezbake_common.Entries.{oldest, drop_oldest, touch, make_room, drop_entry, entry_discrete}
use ezbake_common.LruCache
use ezbake_common.LruCache.{LruCache}
use ezbake_common.LruCache.Refinement.{get-touch, pop-drop_oldest, put_lem, remove_value-drop_entry}
use ezbake_common.LruCache.Removal.{remove_key-drop_key}
use ezbake_common.LruCache.Run.{Call, IsValid, apply, apply-IsValid}
use ezbake_common.LruTimedCache
use ezbake_common.LruTimedCache.Matching.{matching-Mem}
use ezbake_common.LruTimedCache.Reads.{view}
use ezbake_common.LruTimedCache.Removal.{remove_all-Mem}
use ezbake_common.LruTimedCache.Sections.{Section, lookup, discard, run_section}
use ezbake_common.LruTimedCache.{
  CacheValue, LruTimedCache, cache_value_discrete, stamp, expired, microseconds, get_key_scan,
  remove_all,
}
use ezbake_common.StdSet.Laws.{IsOrder}

-- No call of an LRUCache but `put` brings an entry in.
module _ {ℓ} {K V : Type ℓ} (dk : Discrete K) (dv : Discrete V) where
  mem_of_mem-touch : (k : K) (l : List (K × V)) (e : K × V) → Mem e (touch dk k l) → Mem e l
  unfolding touch
  mem_of_mem-touch k l e m = elim (Option-cases (oldest dk k l)) [
    | inl o ↦ rw (o, touch) at m
    | inr (v, o) ↦
        Or.elim Mem-prop (mem-append.0 (rw (o, touch) at m))
          (λ n. Sublist.subset (drop_oldest-Sublist dk k l) e n)
          (λ n.
            Or.elim Mem-prop (mem-cons.0 n) (λ q. rw q (mem_of_oldest dk k l o))
              (λ z. absurd (not-mem-nil z)))
  ]

  mem_of_mem-put :
      (capacity : ℕ) (k : K) (v : V) (l : List (K × V)) (e : K × V)
      → Mem e (Entries.put dk dv capacity k v l)
      → (e ≡ (k, v)) ∨₁ Mem e l
  unfolding Entries.put
  mem_of_mem-put capacity k v l e m =
      Or.elim (hlevel) (mem-append.0 m)
        (λ n. Or.inr (
          mem_of_mem-erase (entry_discrete dk dv) (k, v)
            (Sublist.subset (make_room-Sublist capacity (drop_entry dk dv k v l)) e n)))
        (λ n. Or.elim (hlevel) (mem-cons.0 n) (λ q. Or.inl q) (λ z. absurd (not-mem-nil z)))

-- The entry that a section puts.
unfoldable pub put_of {ℓ} : {K V : Type ℓ} → Section K V → Option (K × CacheValue V)
unfolding stamp
put_of (Section.put now k v) = some (k, stamp now v)
put_of _ = none

module _ {ℓ} {K V : Type ℓ} {dk : Discrete K} (dv : Discrete V) (B : Bimap (CacheValue V) dk)
    (less : K × CacheValue V → K × CacheValue V → Bool) (order : IsOrder less) where
  remove_all-IsValid :
      (set : List (K × CacheValue V)) (base : LruCache B)
      → IsValid base
      → (base' : LruCache B) × (remove_all dv B base set ≡ ok base') × IsValid base'
  unfolding remove_all apply
  remove_all-IsValid [] base valid = (base, refl, valid)
  remove_all-IsValid (e ∷ set) base valid =
      let dc = cache_value_discrete dv in
      let (b, r, done, left, cap, _) = remove_value-drop_entry dc B base e.0 e.1 valid.distinct in
      let (base', rest, valid') =
        remove_all-IsValid set b
          (apply-IsValid dc B base b (Call.remove_value e.0 e.1) left cap valid) in
      (base', rw done rest, valid')

  -- A section that returns, and where the entries after it come from.
  abbrev pub Traced : LruTimedCache B → Section K V → Type ℓ
  Traced c section =
      (d : LruTimedCache B) × (run_section dv B less c section ≡ ok d)
      × IsValid d.base
      × (d.expiration ≡ c.expiration)
      × ((e : K × CacheValue V) → Mem e (view d) → (put_of section ≡ some e) ∨₁ Mem e (view c))

  pub run_section-Traced :
      (c : LruTimedCache B) (section : Section K V) → IsValid c.base → Traced c section
  unfolding run_section LruTimedCache.pop LruTimedCache.put LruTimedCache.get_key
      LruTimedCache.remove_key LruTimedCache.remove_value LruCache.clear apply put_of
  run_section-Traced c (lookup k) valid =
      let dc = cache_value_discrete dv in
      let (base, done, left, cap) = get-touch dc B c.base k in
      (
        record c { base = base },
        rw done,
        apply-IsValid dc B c.base base (Call.get k) left cap valid,
        refl,
        λ e m. Or.inr (mem_of_mem-touch dk dc k (view c) e (rw left at m)),
      )
  run_section-Traced c (discard k cv) valid =
      let dc = cache_value_discrete dv in
      let (base, r, done, left, cap, _) = remove_value-drop_entry dc B c.base k cv valid.distinct in
      (
        record c { base = base },
        rw done,
        apply-IsValid dc B c.base base (Call.remove_value k cv) left cap valid,
        refl,
        λ e m. Or.inr (mem_of_mem-erase (entry_discrete dk dc) (k, cv) (rw left at m)),
      )
  run_section-Traced c (Section.pop now k) valid =
      let dc = cache_value_discrete dv in
      let (base, done, left, cap) = pop-drop_oldest dc B c.base k in
      (
        record c { base = base },
        rw done,
        apply-IsValid dc B c.base base (Call.pop k) left cap valid,
        refl,
        λ e m. Or.inr (Sublist.subset (drop_oldest-Sublist dk k (view c)) e (rw left at m)),
      )
  run_section-Traced c (Section.put now k v) valid =
      let dc = cache_value_discrete dv in
      let (base, done, left, cap) = put_lem dc B c.base k (stamp now v) valid.distinct in
      (
        record c { base = base },
        rw done,
        apply-IsValid dc B c.base base (Call.put k (stamp now v)) left cap valid,
        refl,
        λ e m.
            Or.elim (hlevel)
              (mem_of_mem-put dk dc c.base.capacity k (stamp now v) (view c) e (rw left at m))
              (λ q. Or.inl (ap some (sym q))) (λ n. Or.inr n),
      )
  run_section-Traced c (Section.get_key clock v) valid =
      let scan = get_key_scan dv B less c.expiration clock 0 v (B.right c.base.store) [] in
      let (base, done, valid') = remove_all-IsValid scan.1 c.base valid in
      let (base', done', _, _, members) = remove_all-Mem dv B scan.1 c.base valid.distinct in
      let same : ok base' ≡ ok base = sym done' ∙ done in
      let q : base' ≡ base = cc in
      (
        record c { base = base },
        rw done,
        valid',
        refl,
        λ e m. Or.inr ((members e).0 (rw (← q) at m)).0,
      )
  run_section-Traced c (Section.remove_key k) valid =
      let dc = cache_value_discrete dv in
      let (base, vs, done, _, left, cap) = remove_key-drop_key dc B c.base k in
      (
        record c { base = base },
        rw done,
        apply-IsValid dc B c.base base (Call.remove_key k) left cap valid,
        refl,
        λ e m. Or.inr (Sublist.subset (drop_key-Sublist dk k (view c)) e (rw left at m)),
      )
  run_section-Traced c (Section.remove_value k v) valid =
      let (set, found, _, _) = matching-Mem dv B less order k v c.base.store in
      let (base, done, valid') = remove_all-IsValid set c.base valid in
      let (base', done', _, _, members) = remove_all-Mem dv B set c.base valid.distinct in
      let same : ok base' ≡ ok base = sym done' ∙ done in
      let q : base' ≡ base = cc in
      (
        record c { base = base },
        rw found (rw done),
        valid',
        refl,
        λ e m. Or.inr ((members e).0 (rw (← q) at m)).0,
      )
  run_section-Traced c Section.clear valid =
      let dc = cache_value_discrete dv in
      (
        record c { base = LruCache.clear dc B c.base },
        refl,
        apply-IsValid dc B c.base (LruCache.clear dc B c.base) Call.clear
            (B.right-clear c.base.store) refl valid,
        refl,
        λ e m. absurd (not-mem-nil (rw (B.right-clear c.base.store) at m)),
      )
