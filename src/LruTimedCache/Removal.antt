-- ===== src/LruTimedCache/Removal.antt =====
-- The loop that removes a set of entries from the cache beneath an LRUTimedCache.
use mathlib.Core.List.Nodup
use mathlib.Core.List.{erase-sublist}
use ezbake_common.Bimap.{Bimap}
use ezbake_common.Common.{◌≡◌, refl, sym, ap, ◌∙◌, ◌↔◌, List, [], ◌∷◌, Mem, Nodup, ok}
use ezbake_common.Entries
use ezbake_common.Entries.Without.{without, without-nil, without-erase, without-Nodup, mem-without}
use ezbake_common.LruCache.Refinement.{view, remove_value-drop_entry}
use ezbake_common.LruCache.{LruCache}
use ezbake_common.LruTimedCache.{CacheValue, cache_value_discrete, remove_all}

module _ {ℓ} {K V : Type ℓ} {dk : Discrete K} (dv : Discrete V) (B : Bimap (CacheValue V) dk) where
  abbrev pub ed : Discrete (K × CacheValue V)
  ed = Entries.entry_discrete dk (cache_value_discrete dv)

  -- What is left is what was there and is not in the set, in its order.
  pub remove_all-without :
      (set : List (K × CacheValue V)) (base : LruCache B)
      → Nodup (view base)
      → (base' : LruCache B) × (remove_all dv B base set ≡ ok base')
        × (view base' ≡ without ed set (view base))
        × (base'.capacity ≡ base.capacity)
  unfolding remove_all
  remove_all-without [] base d = (base, refl, sym (without-nil ed (view base)), refl)
  remove_all-without (x ∷ set) base d =
      let dc = cache_value_discrete dv in
      let (b, r, done, left, cap, _) = remove_value-drop_entry dc B base x.0 x.1 d in
      let d' : Nodup (view b) = rw left (Nodup.sublist (erase-sublist ed (x.0, x.1)) d) in
      let (b', done', left', cap') = remove_all-without set b d' in
      (
        b',
        rw done done',
        left' ∙ ap (without ed set) left ∙ without-erase ed x set (view base) d,
        cap' ∙ cap,
      )

  pub remove_all-Mem :
      (set : List (K × CacheValue V)) (base : LruCache B)
      → Nodup (view base)
      → (base' : LruCache B) × (remove_all dv B base set ≡ ok base')
        × Nodup (view base')
        × (base'.capacity ≡ base.capacity)
        × ((e : K × CacheValue V) → Mem e (view base') ↔ (Mem e (view base) × (¬ Mem e set)))
  remove_all-Mem set base d =
      let (base', done, left, cap) = remove_all-without set base d in
      (
        base',
        done,
        rw left (without-Nodup ed set d),
        cap,
        λ e. rw left (mem-without ed set (view base) e),
      )
