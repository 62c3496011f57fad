-- ===== src/Tests/Timelines.antt =====
-- A sequence of calls of an LRUTimedCache at readings of the clock, by the cache and by the list.
use mathlib.Core.HLevel.{⊥_prop}
use mathlib.Core.List.{mem-cons, not-mem-nil}
use mathlib.Core.Logic.Or
use ezbake_common.Common.{
  ◌^◌, ◌-◌, arith, inr, refl, true, false, Mem, Option, ℕ, ◌≡◌, List, [], ◌∷◌, none, some, ok, ltb,
  ℕ_discrete,
}
use ezbake_common.Entries
use ezbake_common.LruCache.Spec
use ezbake_common.LruCache.Spec.{serve, key_with}
use ezbake_common.LruTimedCache
use ezbake_common.LruTimedCache.{CacheValue, LruTimedCache}
use ezbake_common.LruTimedCache.Handled.{handle}
use ezbake_common.LruTimedCache.Interleaved.{interleaved-not_atomic}
use ezbake_common.LruTimedCache.Observed.{serve-respond_timed}
use ezbake_common.LruTimedCache.Order.{cache_value_less-IsOrder, pair_less-IsOrder}
use ezbake_common.LruTimedCache.Reads.{view, after_get}
use ezbake_common.LruTimedCache.Retention.{Use, run, run-contains_value}
use ezbake_common.LruTimedCache.Sections.{Section, run_sections}
use ezbake_common.LruTimedCache.Spec.{
  Request, Answer, done, number, key, value, set, removed, respond, live_key, value_set_of_values,
}
use ezbake_common.LruTimedCache.{
  cache_value_discrete, cache_value_less, pair_less, expired, unexpired, stamp,
}
use ezbake_common.StdSet
use ezbake_common.Tests.Lru.{ltb-IsOrder}
use ezbake_common.Tests.Timed.{container, at_second, two, clock_at, less, less-IsOrder, two-Nodup}

-- The reverse lookup at second 170 drops the entry of key 1, which had expired.
abbrev requests : List (Request ℕ ℕ)
requests =
    Request.get_key (λ _. clock_at 170) 10
    ∷ Request.inherited Spec.Request.size
    ∷ Request.put (clock_at 170) 1 10
    ∷ Request.value_set 1
    ∷ Request.remove_value 1 10
    ∷ Request.get (clock_at 170) 2
    ∷ Request.expiration
    ∷ []

abbrev answers : List (Answer ℕ ℕ)
answers =
    key none
    ∷ Answer.inherited (Spec.Answer.number 1)
    ∷ done
    ∷ set (10 ∷ [])
    ∷ removed (at_second 170 10 ∷ [])
    ∷ value (some 20)
    ∷ number 60
    ∷ []

serve-respond_timed_example :
    serve
      (handle ℕ_discrete container (cache_value_less ℕ_discrete ltb) ltb less (pair_less ltb ltb))
      two
      requests
    ≡ ok answers
unfolding ℕ_discrete serve Spec.respond respond live_key value_set_of_values cache_value_discrete
    cache_value_less pair_less expired unexpired stamp after_get StdSet.insert_all Entries.put
    Entries.make_room Entries.oldest Entries.touch Entries.drop_oldest Entries.values
    Entries.entry_discrete
serve-respond_timed_example =
    serve-respond_timed ℕ_discrete container (cache_value_less ℕ_discrete ltb) ltb less
      (pair_less ltb ltb) (cache_value_less-IsOrder ℕ_discrete ltb ltb-IsOrder) ltb-IsOrder
      less-IsOrder (pair_less-IsOrder ltb ltb ltb-IsOrder ltb-IsOrder) requests two two-Nodup

-- A value that is put at second 170 is found at second 200, with one call between.
run-contains_value_example :
    (d d' : LruTimedCache container) × (run ℕ_discrete container two
        (Use.put (clock_at 170) 1 10 ∷ Use.get (clock_at 171) 2 ∷ [])
      ≡ ok d)
    × (LruTimedCache.contains_value ℕ_discrete container less d (λ _. clock_at 200) 10
        ≡ ok (d', true))
    × Mem (1, stamp (clock_at 170) 10) (view d')
run-contains_value_example =
    run-contains_value ℕ_discrete container less less-IsOrder two (clock_at 170) 1 10
      (Use.get (clock_at 171) 2 ∷ []) (λ _. clock_at 200) two-Nodup (inr (omega arith))
      (inr (omega arith, omega arith), tt) (λ i. inr (omega arith, omega arith))

abbrev first : CacheValue ℕ
first = at_second 100 10

abbrev second : ℕ × CacheValue ℕ
second = (2, at_second 150 20)

-- No entry has key 3.
new_pair : ¬ Mem (3, stamp (clock_at 170) 30) (view two)
new_pair m =
    Or.elim ⊥_prop (mem-cons.0 m) (λ p. cc)
      (λ n. Or.elim ⊥_prop (mem-cons.0 n) (λ p. cc) not-mem-nil)

first_expired : expired 60 (clock_at 170) 100 ≡ true
unfolding expired
first_expired = refl

second_live : expired 60 (clock_at 170) 150 ≡ false
unfolding expired
second_live = refl

-- An expiration that is too large for a long is negative, and an entry has expired as it is put.
at_once : expired (2 ^ 64 - 1) (clock_at 170) 170 ≡ true
unfolding expired
at_once = refl

interleaved-not_atomic_example :
    ((d : LruTimedCache container) × (run_sections ℕ_discrete container less two
          (Section.lookup 1 ∷ Section.put (clock_at 170) 3 30 ∷ Section.discard 1 first ∷ [])
        ≡ ok d)
      × (¬ Mem second (view d)))
    × ((a b : LruTimedCache container) × (r : Option ℕ) × (LruTimedCache.get ℕ_discrete container
            two
            (clock_at 170)
            1
          ≡ ok (a, r))
        × (LruTimedCache.put ℕ_discrete container a (clock_at 170) 3 30 ≡ ok b)
        × Mem second (view b))
    × ((a b : LruTimedCache container) × (r : Option ℕ) × (LruTimedCache.put ℕ_discrete container
            two
            (clock_at 170)
            3
            30
          ≡ ok a)
        × (LruTimedCache.get ℕ_discrete container a (clock_at 170) 1 ≡ ok (b, r))
        × Mem second (view b))
interleaved-not_atomic_example =
    interleaved-not_atomic ℕ_discrete container less two 1 first second [] (clock_at 170) 3 30
      two-Nodup refl refl new_pair (clock_at 170) first_expired second_live
