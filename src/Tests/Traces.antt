-- ===== src/Tests/Traces.antt =====
-- Threads that interleave the critical sections of LRUTimedCache.h, and the sets that it shows.
use ezbake_common.Common.{ℕ, ◌≡◌, inl, refl, List, [], ◌∷◌, some, Mem, ok, ℕ_discrete, arith}
use mathlib.Core.List.{mem-cons_self, mem-cons_of_mem}
use ezbake_common.LruTimedCache.Reads.{view}
use ezbake_common.LruTimedCache.Readers.{Step, begins, ends, Pending, run_steps, run_steps-Mem}
use ezbake_common.Bimap.Lists.{equal_range, find}
use ezbake_common.Entries
use ezbake_common.LruCache
use ezbake_common.LruCache.Run.{IsValid}
use ezbake_common.LruTimedCache
use ezbake_common.LruTimedCache.{
  CacheValue, LruTimedCache, cache_value_discrete, cache_value_less, pair_less, expired, stamp,
  microseconds, entry_set, value_set,
}
use ezbake_common.LruTimedCache.Origin.{FreshPut, get_and_pop-put}
use ezbake_common.LruTimedCache.Run.{run_sections-IsValid}
use ezbake_common.LruTimedCache.Sections.{Section, lookup, discard, run_sections}
use ezbake_common.StdSet
use ezbake_common.Text
use ezbake_common.Tests.Timed.{container, at_second, two, clock_at, less, less-IsOrder, two-Nodup}

program : Unit {0}
unfolding run_sections run_steps Text.take Text.drop ℕ_discrete equal_range find Entries.positions
    Entries.drop_key Entries.move_to_end LruCache.get LruCache.pop LruCache.put LruCache.remove_key
    LruCache.remove_value LruCache.deref LruCache.init Entries.touch Entries.drop_oldest
    Entries.oldest Entries.put Entries.make_room Entries.values Entries.entry_discrete
    cache_value_discrete cache_value_less expired stamp LruTimedCache.init LruTimedCache.get
    LruTimedCache.pop LruTimedCache.put LruTimedCache.get_key LruTimedCache.contains_value
    LruTimedCache.remove_value LruTimedCache.remove_key StdSet.insert pair_less
program = tt

-- One thread reads an expired value of key 1; another one puts a new value before it is removed.
abbrev sections : List (Section ℕ ℕ)
sections =
    lookup 1
    ∷ Section.put (clock_at 170) 1 11
    ∷ discard 1 (at_second 100 10)
    ∷ Section.get_key (λ _. clock_at 170) 11
    ∷ []

sections_run :
    run_sections ℕ_discrete container less two sections
    ≡ ok (record two { base = record { capacity = 2; store = (1, at_second 170 11) ∷ [] } })
unfolding program
sections_run = refl

two-IsValid : IsValid two.base
two-IsValid = record {
  distinct = two-Nodup;
  bounded = λ _. omega arith;
  representable = omega arith;
}

run_sections-IsValid_example :
    (d : LruTimedCache container) × (run_sections ℕ_discrete container less two sections ≡ ok d)
    × IsValid d.base
    × (d.expiration ≡ 60)
run_sections-IsValid_example =
    run_sections-IsValid ℕ_discrete container less less-IsOrder sections two two-IsValid

-- Entries live for 60 seconds; the value of key 1 is put at second 150.
abbrev puts : List (Section ℕ ℕ)
puts = Section.put (clock_at 100) 2 20 ∷ Section.put (clock_at 150) 1 10 ∷ lookup 2 ∷ []

abbrev after_puts : LruTimedCache container
after_puts = record {
  base = record { capacity = 2; store = (1, at_second 150 10) ∷ (2, at_second 100 20) ∷ [] };
  expiration = 60;
}

abbrev after_read : LruTimedCache container
after_read = record after_puts {
  base = record { capacity = 2; store = (2, at_second 100 20) ∷ (1, at_second 150 10) ∷ [] };
}

puts_run :
    run_sections ℕ_discrete container less (LruTimedCache.init ℕ_discrete container 2 60) puts
    ≡ ok after_puts
unfolding program
puts_run = refl

read_run :
    LruTimedCache.get ℕ_discrete container after_puts (clock_at 170) 1 ≡ ok (after_read, some 10)
unfolding program
read_run = refl

get_and_pop-put_example : FreshPut 60 (clock_at 170) 1 10 puts
get_and_pop-put_example =
    get_and_pop-put ℕ_discrete container less less-IsOrder 2 60 puts after_puts after_read
      (clock_at 170) 1 10 (omega arith) (omega arith) puts_run (inl read_run)

-- Two threads find the value of key 1 expired at second 170, and both remove it; a third one has
-- found the value of key 2.
abbrev steps : List (Step ℕ)
steps =
    begins 1
    ∷ begins 1
    ∷ ends 0 (clock_at 170)
    ∷ begins 2
    ∷ ends 1 (clock_at 170)
    ∷ ends 0 (clock_at 170)
    ∷ []

steps_run :
    run_steps ℕ_discrete container two [] steps
    ≡ ok (record two { base = record { capacity = 2; store = (2, at_second 150 20) ∷ [] } }, [])
unfolding program
steps_run = refl

run_steps-Mem_example :
    (d : LruTimedCache container) × (rest : List (Pending ℕ ℕ)) × (run_steps ℕ_discrete container
        two [] steps
      ≡ ok (d, rest))
    × Mem (2, at_second 150 20) (view d)
unfolding program
run_steps-Mem_example =
    run_steps-Mem ℕ_discrete container steps two [] (2, at_second 150 20) two-Nodup
      (mem-cons_of_mem (1, at_second 100 10) mem-cons_self) (refl, (refl, (refl, tt)))
