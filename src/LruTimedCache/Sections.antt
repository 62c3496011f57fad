-- ===== src/LruTimedCache/Sections.antt =====
-- The critical sections of LRUTimedCache.h as threads interleave them: each holds the mutex from
-- start to end. `get` has two, the lookup and the removal of an expired value that was read, so
-- other threads' sections may come between them; every other method has one.
use ezbake_common.Bimap.{Bimap}
use ezbake_common.Common.{ℕ, List, [], ◌∷◌, Outcome, ok, ◌>>=◌, Bool}
use ezbake_common.LruCache
use ezbake_common.LruCache.{LruCache}
use ezbake_common.LruTimedCache
use ezbake_common.LruTimedCache.{
  expired, CacheValue, LruTimedCache, cache_value_discrete, stamp, get_key_scan, remove_all,
  matching,
}

-- `lookup` and `discard` are the two sections of `get`.
pub data Section {ℓ} (K V : Type ℓ) : Type ℓ where
  lookup : K → Section K V
  discard : K → CacheValue V → Section K V
  pop : ℕ → K → Section K V
  put : ℕ → K → V → Section K V
  get_key : (ℕ → ℕ) → V → Section K V
  remove_key : K → Section K V
  remove_value : K → V → Section K V
  clear : Section K V

module _ {ℓ} {K V : Type ℓ} {dk : Discrete K} (dv : Discrete V) (B : Bimap (CacheValue V) dk)
    (less : K × CacheValue V → K × CacheValue V → Bool) where
  unfoldable pub run_section : LruTimedCache B → Section K V → Outcome (LruTimedCache B)
  unfolding LruTimedCache.pop LruTimedCache.put LruTimedCache.get_key LruTimedCache.remove_key
      LruTimedCache.remove_value
  run_section c (lookup k) = do
    (base, _) ← LruCache.get (cache_value_discrete dv) B c.base k
    ok (record c { base = base })
  run_section c (discard k cv) = do
    (base, _) ← LruCache.remove_value (cache_value_discrete dv) B c.base k cv
    ok (record c { base = base })
  run_section c (pop now k) = do (d, _) ← LruTimedCache.pop dv B c now k; ok d
  run_section c (put now k v) = LruTimedCache.put dv B c now k v
  run_section c (get_key clock v) = do (d, _) ← LruTimedCache.get_key dv B less c clock v; ok d
  run_section c (remove_key k) = do (d, _) ← LruTimedCache.remove_key dv B c k; ok d
  run_section c (remove_value k v) = do (d, _) ← LruTimedCache.remove_value dv B less c k v; ok d
  run_section c clear = ok (record c { base = LruCache.clear (cache_value_discrete dv) B c.base })

  unfoldable pub run_sections : LruTimedCache B → List (Section K V) → Outcome (LruTimedCache B)
  unfolding run_section
  run_sections c [] = ok c
  run_sections c (section ∷ sections) = do d ← run_section c section; run_sections d sections
