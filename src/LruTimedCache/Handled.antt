-- ===== src/LruTimedCache/Handled.antt =====
-- The public methods of LRUTimedCache.h as answers to requests; a request to an LRUCache is
-- answered by the base class.
use mathlib.Core.Quot
use ezbake_common.Bimap.{Bimap}
use ezbake_common.Common.{◌≡◌, ◌⊎◌, Bool, List, Nodup, Outcome, ok, undefined, ◌>>=◌}
use ezbake_common.LruCache.Handled
use ezbake_common.LruTimedCache
use ezbake_common.LruTimedCache.Reads.{view}
use ezbake_common.LruTimedCache.Spec.{
  Request, Answer, done, number, flag, key, value, set, entries, bag, removed, respond,
}
use ezbake_common.LruTimedCache.{CacheValue, LruTimedCache, cache_value_discrete}

module _ {ℓ} {K V : Type ℓ} {dk : Discrete K} (dv : Discrete V) (B : Bimap (CacheValue V) dk)
    (less_c : CacheValue V → CacheValue V → Bool) (less_v : V → V → Bool)
    (less : K × CacheValue V → K × CacheValue V → Bool) (less_e : K × V → K × V → Bool) where
  -- A public method, with its answer.
  unfoldable pub handle : LruTimedCache B → Request K V → Outcome (LruTimedCache B × Answer K V)
  unfolding Handled.handle LruTimedCache.get LruTimedCache.pop LruTimedCache.put
      LruTimedCache.get_key LruTimedCache.contains_value LruTimedCache.remove_key
      LruTimedCache.remove_value LruTimedCache.value_set LruTimedCache.entry_set
  handle c (Request.inherited request) = do
    (base, a) ← Handled.handle (cache_value_discrete dv) B less_c less c.base request
    ok (record c { base = base }, Answer.inherited a)
  handle c Request.expiration = ok (c, number c.expiration)
  handle c Request.entry_set = ok (c, entries (LruTimedCache.entry_set dv B less less_e c))
  handle c (Request.contains_value clock v) = do
    (c', there) ← LruTimedCache.contains_value dv B less c clock v
    ok (c', flag there)
  handle c (Request.get_key clock v) = do
    (c', r) ← LruTimedCache.get_key dv B less c clock v
    ok (c', key r)
  handle c (Request.value_set k) = do
    vs ← LruTimedCache.value_set dv B less_c less_v c k
    ok (c, set vs)
  handle c (Request.remove_key k) = do
    (c', vs) ← LruTimedCache.remove_key dv B c k
    ok (c', bag (Quot.mk vs))
  handle c (Request.get now k) = do (c', r) ← LruTimedCache.get dv B c now k; ok (c', value r)
  handle c (Request.pop now k) = do (c', r) ← LruTimedCache.pop dv B c now k; ok (c', value r)
  handle c (Request.put now k v) = do c' ← LruTimedCache.put dv B c now k v; ok (c', done)
  handle c (Request.remove_value k v) = do
    (c', vs) ← LruTimedCache.remove_value dv B less c k v
    ok (c', removed vs)

  -- The answer of the list.
  abbrev reply : LruTimedCache B → Request K V → Outcome (List (K × CacheValue V) × Answer K V)
  reply c request =
      respond dk dv less_c less_v less less_e c.base.capacity c.expiration (view c) request

  -- Both sides answer alike and go on alike, or both leave the defined behaviour.
  abbrev pub Agrees : LruTimedCache B → Request K V → Type ℓ
  Agrees c request =
      ((d : LruTimedCache B) × (a : Answer K V) × (handle c request ≡ ok (d, a))
        × (reply c request ≡ ok (view d, a))
        × (d.base.capacity ≡ c.base.capacity)
        × (d.expiration ≡ c.expiration)
        × Nodup (view d))
      ⊎ ((handle c request ≡ undefined) × (reply c request ≡ undefined))
