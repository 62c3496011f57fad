-- ===== src/Tests/Timed.antt =====
-- LRUTimedCache on a small cache, as in src/test/cpp/lrucache/LRUTimeCacheTests.cpp.
use mathlib.Core.List.{Nodup-nil}
use ezbake_common.Bimap.Lists.{list_bimap, equal_range, find}
use ezbake_common.Bimap.{Bimap}
use ezbake_common.Common.{
  ℕ, ◌*◌, ◌≡◌, refl, Bool, [], ◌∷◌, Option, none, some, Nodup, ok, ℕ_discrete, ltb,
}
use ezbake_common.Entries
use ezbake_common.Entries.Unique.{put-Nodup}
use ezbake_common.LruCache
use ezbake_common.LruCache.{LruCache}
use ezbake_common.LruTimedCache
use ezbake_common.LruTimedCache.{
  CacheValue, LruTimedCache, cache_value_discrete, cache_value_less, pair_less, expired, unexpired,
  stamp, microseconds,
}
use ezbake_common.LruTimedCache.Keys.{Finds, get_key-Finds}
use ezbake_common.LruTimedCache.Order.{cache_value_less-IsOrder, pair_less-IsOrder}
use ezbake_common.LruTimedCache.Reads.{view, after_get}
use ezbake_common.StdSet
use ezbake_common.StdSet.Laws.{IsOrder}
use ezbake_common.Tests.Lru.{ltb-IsOrder}

abbrev pub container : Bimap (CacheValue ℕ) ℕ_discrete
container = list_bimap ℕ_discrete

abbrev pub at_second : ℕ → ℕ → CacheValue ℕ
at_second t v = record { timestamp = t; value = v }

-- Entries live for 60 seconds.
abbrev pub two : LruTimedCache container
two = record {
  base = record { capacity = 2; store = (1, at_second 100 10) ∷ (2, at_second 150 20) ∷ [] };
  expiration = 60;
}

-- The clock at a second.
abbrev pub clock_at : ℕ → ℕ
clock_at t = t * microseconds

abbrev pub less : ℕ × CacheValue ℕ → ℕ × CacheValue ℕ → Bool
less = pair_less ltb (cache_value_less ℕ_discrete ltb)

program : Unit {0}
unfolding ℕ_discrete equal_range find Entries.positions Entries.drop_key Entries.move_to_end
    LruCache.get LruCache.pop LruCache.put LruCache.remove_key LruCache.remove_value LruCache.deref
    LruCache.init Entries.touch Entries.drop_oldest Entries.oldest Entries.put Entries.make_room
    Entries.values Entries.entry_discrete cache_value_discrete cache_value_less expired unexpired
    stamp after_get LruTimedCache.get LruTimedCache.pop LruTimedCache.put LruTimedCache.get_key
    LruTimedCache.contains_value LruTimedCache.remove_value LruTimedCache.remove_key StdSet.insert
    pair_less
program = tt

-- At second 170 the entry of key 1 is dropped, and the other one is still read.
get_run :
    (LruTimedCache.get ℕ_discrete container two (clock_at 170) 1
      ≡ ok
          (record two { base = record { capacity = 2; store = (2, at_second 150 20) ∷ [] } }, none))
    × (LruTimedCache.get ℕ_discrete container two (clock_at 170) 2 ≡ ok (two, some 20))
unfolding program
get_run = (refl, refl)

remove_value_run :
    LruTimedCache.remove_value ℕ_discrete container less two 1 10
    ≡ ok (
      record two { base = record { capacity = 2; store = (2, at_second 150 20) ∷ [] } },
      at_second 100 10 ∷ [],
    )
unfolding program
remove_value_run = refl

pub two-Nodup : Nodup (view two)
unfolding program
two-Nodup =
    put-Nodup ℕ_discrete (cache_value_discrete ℕ_discrete) 2 (at_second 150 20) 0
      ((1, at_second 100 10) ∷ [])
      (put-Nodup ℕ_discrete (cache_value_discrete ℕ_discrete) 1 (at_second 100 10) 0 [] Nodup-nil)

pub less-IsOrder : IsOrder less
less-IsOrder =
    pair_less-IsOrder ltb (cache_value_less ℕ_discrete ltb) ltb-IsOrder
      (cache_value_less-IsOrder ℕ_discrete ltb ltb-IsOrder)

get_key-Finds_example :
    (d : LruTimedCache container) × (key : Option ℕ) × (LruTimedCache.get_key ℕ_discrete container
        less two
        (λ _. clock_at 170)
        10
      ≡ ok (d, key))
    × Finds ℕ_discrete container less less-IsOrder two d (λ _. clock_at 170) 10 key
get_key-Finds_example =
    get_key-Finds ℕ_discrete container less less-IsOrder two (λ _. clock_at 170) 10 two-Nodup
