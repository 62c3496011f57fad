-- ===== src/LruTimedCache/Run.antt =====
-- Any sequence of the critical sections of LRUTimedCache.h, as threads interleave them.
use ezbake_common.Bimap.{Bimap}
use ezbake_common.Common.{
  ℕ, ◌⊎◌, inl, inr, none, some, true, Option-cases, Bool-cases, ◌≡◌, refl, ◌∙◌, List, [], ◌∷◌,
  Option, ok, Nodup, Bool,
}
use ezbake_common.Entries.Unique.{touch-Nodup}
use ezbake_common.Entries.{oldest}
use ezbake_common.LruCache.Refinement.{get-touch, remove_value-drop_entry}
use ezbake_common.LruCache.Run.{IsValid}
use ezbake_common.LruTimedCache
use ezbake_common.LruTimedCache.Sections.{Section, lookup, discard, run_section, run_sections}
use ezbake_common.LruTimedCache.Traced.{run_section-Traced}
use ezbake_common.LruTimedCache.Reads.{view}
use ezbake_common.LruTimedCache.{
  expired, CacheValue, LruTimedCache, cache_value_discrete, stamp, get_key_scan, remove_all,
  matching,
}
use ezbake_common.StdSet.Laws.{IsOrder}

module _ {ℓ} {K V : Type ℓ} {dk : Discrete K} (dv : Discrete V) (B : Bimap (CacheValue V) dk)
    (less : K × CacheValue V → K × CacheValue V → Bool) where
  -- Let the sets' order be a strict total order. Whatever critical sections the threads run, in any
  -- order, each returns, and a valid cache stays valid: its pairs are distinct and within the
  -- capacity. The expiration stays.
  pub run_sections-IsValid :
      IsOrder less
      → (sections : List (Section K V)) (c : LruTimedCache B) → IsValid c.base
      → (d : LruTimedCache B) × (run_sections dv B less c sections ≡ ok d)
        × IsValid d.base
        × (d.expiration ≡ c.expiration)
  unfolding run_sections
  run_sections-IsValid order [] c valid = (c, refl, valid, refl)
  run_sections-IsValid order (section ∷ sections) c valid =
      let (c', done, valid', same, _) = run_section-Traced dv B less order c section valid in
      let (d, rest, valid'', same') = run_sections-IsValid order sections c' valid' in
      (d, rw (done, run_sections) rest, valid'', same' ∙ same)

  -- Where the pairs are distinct `get` is its sections without another one between: the lookup, and
  -- the removal of the value that was read where that has expired.
  get-run_sections :
      (c : LruTimedCache B) (now : ℕ) (k : K)
      → Nodup (view c)
      → (d : LruTimedCache B) × (r : Option V) × (LruTimedCache.get dv B c now k ≡ ok (d, r))
        × ((run_sections dv B less c (lookup k ∷ []) ≡ ok d)
            ⊎ ((cv : CacheValue V) × (oldest dk k (view c) ≡ some cv)
                × (expired c.expiration now cv.timestamp ≡ true)
                × (r ≡ none)
                × (run_sections dv B less c (lookup k ∷ discard k cv ∷ []) ≡ ok d)))
  unfolding LruTimedCache.get LruTimedCache.get_found run_sections run_section
  get-run_sections c now k distinct =
      let dc = cache_value_discrete dv in
      let (base, done, touched, cap) = get-touch dc B c.base k in
      let c' : LruTimedCache B = record c { base = base } in
      elim (Option-cases (oldest dk k (view c))) [
        | inl o ↦
            (c', none, rw done (rw (o, LruTimedCache.get_found)), inl (rw (done, run_sections)))
        | inr (cv, o) ↦ elim (Bool-cases (expired c.expiration now cv.timestamp)) [
          | inr fresh ↦ (
            c',
            some cv.value,
            rw done (rw (o, LruTimedCache.get_found) (rw fresh)),
            inl (rw (done, run_sections)),
          )
          | inl old ↦
              let distinct' = rw (← touched) at (touch-Nodup dk k (view c) distinct) in
              let (base', r, gone, _, _, _) = remove_value-drop_entry dc B base k cv distinct' in
              (
                record c { base = base' },
                none,
                rw done (rw (o, LruTimedCache.get_found) (rw old (rw gone))),
                inr (cv, o, old, refl, rw (done, run_sections) (rw gone)),
              )
        ]
      ]
