-- ===== src/Tests/Lru.antt =====
-- LRUCache on a small cache, as in src/test/cpp/lrucache/LRUCacheTests.cpp.
use mathlib.Core.List.{Nodup-nil, foldl}
use ezbake_common.Bimap.Lists.{list_bimap, equal_range, find}
use ezbake_common.Bimap.{Bimap}
use ezbake_common.Common.{
  ℕ, ◌≡◌, ◌↔◌, ◌⊎◌, refl, true, false, List, [], ◌∷◌, some, Mem, Nodup, ok, undefined, ℕ_discrete,
  arith, ltb,
}
use ezbake_common.Entries
use ezbake_common.Entries.Unique.{put-Nodup}
use ezbake_common.LruCache
use ezbake_common.LruCache.{LruCache}
use ezbake_common.LruCache.Refinement.{view}
use ezbake_common.LruCache.Recency.{run-Tracks, Tracks, note}
use ezbake_common.LruCache.Refinement.{get-touch, put_lem}
use ezbake_common.LruCache.Sets.{value_set-cases}
use ezbake_common.LruTimedCache.{pair_less}
use ezbake_common.StdSet.Laws.{IsOrder, IsAscending}
use ezbake_common.LruCache.Run.{
  init-IsValid, run-IsValid, Call, Event, IsValid, used, dropped, nothing,
}
use ezbake_common.LruCache.Run

abbrev pub container : Bimap ℕ ℕ_discrete
container = list_bimap ℕ_discrete

abbrev holding : ℕ → List (ℕ × ℕ) → LruCache container
holding capacity entries = record { capacity = capacity; store = entries }

-- All that a run of the model computes with.
program : Unit {0}
unfolding ℕ_discrete equal_range find Entries.positions Entries.drop_key Entries.move_to_end
    LruCache.get LruCache.pop LruCache.put LruCache.remove_key LruCache.remove_value LruCache.deref
    LruCache.value_set LruCache.contains_key LruCache.clear LruCache.init Run.run Entries.touch
    Entries.drop_oldest Entries.oldest Entries.put Entries.make_room Entries.values note
    Entries.entry_discrete LruCache.get_key LruCache.contains_value LruCache.is_full
    LruCache.is_empty LruCache.size LruCache.value_range LruCache.entry_set pair_less
program = tt

-- Key 2 has two values; the oldest is 21, and reading it makes it the most recent.
get_run :
    LruCache.get ℕ_discrete container (holding 3 ((2, 21) ∷ (1, 10) ∷ (2, 22) ∷ [])) 2
    ≡ ok (holding 3 ((1, 10) ∷ (2, 22) ∷ (2, 21) ∷ []), some 21)
unfolding program
get_run = refl

put_run :
    LruCache.put ℕ_discrete container (holding 2 ((2, 21) ∷ (1, 10) ∷ [])) 3 30
    ≡ ok (holding 2 ((1, 10) ∷ (3, 30) ∷ []))
unfolding program
put_run = refl

value_set_run :
    (LruCache.value_set ℕ_discrete container ltb (holding 3 ((2, 22) ∷ (1, 10) ∷ (2, 21) ∷ [])) 2
      ≡ ok (21 ∷ 22 ∷ []))
    × (LruCache.value_set ℕ_discrete container ltb (holding 3 ((2, 22) ∷ [])) 5 ≡ undefined)
unfolding program
value_set_run = (refl, refl)

history_run :
    Run.run ℕ_discrete container
      (LruCache.init ℕ_discrete container 2)
      (Call.put 1 10 ∷ Call.put 2 20 ∷ Call.get 1 ∷ Call.put 3 30 ∷ Call.get 2 ∷ Call.pop 1 ∷ [])
    ≡ ok (
      holding 2 ((3, 30) ∷ []),
      used 1 10 ∷ used 2 20 ∷ used 1 10 ∷ used 3 30 ∷ nothing ∷ dropped 1 10 ∷ [],
    )
unfolding program
history_run = refl

-- A cache at its capacity, in which key 2 has two values.
abbrev pub three : LruCache container
three = holding 3 ((2, 21) ∷ (1, 10) ∷ (2, 22) ∷ [])

pub three-Nodup : Nodup (view three)
unfolding program
three-Nodup = put-Nodup ℕ_discrete ℕ_discrete 2 22 0 ((2, 21) ∷ (1, 10) ∷ []) (
    put-Nodup ℕ_discrete ℕ_discrete 1 10 0 ((2, 21) ∷ [])
      (put-Nodup ℕ_discrete ℕ_discrete 2 21 0 [] Nodup-nil))

three-IsValid : IsValid three
three-IsValid = record {
  distinct = three-Nodup;
  bounded = λ _. omega arith;
  representable = omega arith;
}

pub ltb-IsOrder : IsOrder ltb
ltb-IsOrder = record {
  irreflexive = λ a. ground arith;
  transitive = λ a b c h g. ground arith;
  connected = λ a b h g. ground arith;
}

put_lem_example :
    (c' : LruCache container) × (LruCache.put ℕ_discrete container three 3 30 ≡ ok c')
    × (view c' ≡ (1, 10) ∷ (2, 22) ∷ (3, 30) ∷ [])
    × (c'.capacity ≡ 3)
unfolding program
put_lem_example = put_lem ℕ_discrete container three 3 30 three-Nodup

get-touch_example :
    (c' : LruCache container) × (LruCache.get ℕ_discrete container three 2 ≡ ok (c', some 21))
    × (view c' ≡ (1, 10) ∷ (2, 22) ∷ (2, 21) ∷ [])
    × (c'.capacity ≡ 3)
unfolding program
get-touch_example = get-touch ℕ_discrete container three 2

calls : List (Call ℕ ℕ)
calls = Call.put 1 10 ∷ Call.put 2 20 ∷ Call.get 1 ∷ Call.put 3 30 ∷ Call.get 2 ∷ Call.pop 1 ∷ []

abbrev small : LruCache container
small = LruCache.init ℕ_discrete container 2

small-Tracks : Tracks ℕ_discrete ℕ_discrete container [] small
unfolding program
small-Tracks = record { distinct = Nodup-nil; ends = ([], refl) }

run-Tracks_example :
    (c' : LruCache container) × (es : List (Event ℕ ℕ)) × (Run.run ℕ_discrete container small calls
      ≡ ok (c', es))
    × Tracks ℕ_discrete ℕ_discrete container (foldl (note ℕ_discrete ℕ_discrete) [] es) c'
run-Tracks_example = run-Tracks ℕ_discrete ℕ_discrete container calls small [] small-Tracks

run-IsValid_example :
    (c' : LruCache container) × (es : List (Event ℕ ℕ)) × (Run.run ℕ_discrete container small calls
      ≡ ok (c', es))
    × IsValid c'
run-IsValid_example =
    run-IsValid ℕ_discrete container calls small
      (init-IsValid ℕ_discrete container 2 (omega arith)).0

value_set-cases_example :
    ((LruCache.contains_key ℕ_discrete container three 5 ≡ false)
      × (LruCache.value_set ℕ_discrete container ltb three 5 ≡ undefined))
    ⊎ ((LruCache.contains_key ℕ_discrete container three 5 ≡ true)
        × ((set : List ℕ) × (LruCache.value_set ℕ_discrete container ltb three 5 ≡ ok set)
            × IsAscending ltb set
            × ((v : ℕ) → Mem v set ↔ Mem (5, v) (view three))))
value_set-cases_example = value_set-cases ℕ_discrete container ltb three 5 ltb-IsOrder
