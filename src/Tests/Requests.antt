-- ===== src/Tests/Requests.antt =====
-- Sequences of calls on the small cache of Tests/Lru.
use mathlib.Core.List.{foldl}
use ezbake_common.Common.{ℕ, ◌≡◌, inr, true, List, [], ◌∷◌, map, Mem, ok, ℕ_discrete, arith, ltb}
use ezbake_common.Entries.Last.{last}
use ezbake_common.LruCache
use ezbake_common.LruCache.Handled.{handle}
use ezbake_common.LruCache.Observed.{serve-respond}
use ezbake_common.LruCache.Recency.{note}
use ezbake_common.LruCache.Recent.{run-last}
use ezbake_common.LruCache.Refinement.{view}
use ezbake_common.LruCache.Retention.{run-retains}
use ezbake_common.LruCache.Run.{Call, Event, run}
use ezbake_common.LruCache.Spec.{Request, respond, serve}
use ezbake_common.LruCache.Uses.{Use, call_of}
use ezbake_common.LruCache.{LruCache}
use ezbake_common.LruTimedCache.Order.{pair_less-IsOrder}
use ezbake_common.LruTimedCache.{pair_less}
use ezbake_common.Tests.Lru.{container, three, three-Nodup, ltb-IsOrder}

abbrev requests : List (Request ℕ ℕ)
requests =
    Request.get 2
    ∷ Request.put 3 30
    ∷ Request.remove_key 2
    ∷ Request.is_full
    ∷ Request.value_set 3
    ∷ Request.value_set 2
    ∷ []

serve-respond_example :
    serve (handle ℕ_discrete container ltb (pair_less ltb ltb)) three requests
    ≡ serve (respond ℕ_discrete ℕ_discrete ltb (pair_less ltb ltb) 3) (view three) requests
serve-respond_example =
    serve-respond ℕ_discrete container ltb (pair_less ltb ltb) ltb-IsOrder
      (pair_less-IsOrder ltb ltb ltb-IsOrder ltb-IsOrder) requests three three-Nodup

abbrev uses : List (Use ℕ ℕ)
uses = Use.get 1 ∷ Use.put 3 30 ∷ []

run-retains_example :
    (c' : LruCache container) × (es : List (Event ℕ ℕ)) × (run ℕ_discrete container three
        (Call.put 4 40 ∷ map call_of uses)
      ≡ ok (c', es))
    × Mem (4, 40) (view c')
    × (LruCache.contains_key ℕ_discrete container c' 4 ≡ true)
run-retains_example =
    run-retains ℕ_discrete container 4 40 uses three three-Nodup (inr (omega arith))

run-last_example :
    (c' : LruCache container) × (es : List (Event ℕ ℕ)) × (run ℕ_discrete container
        (LruCache.init ℕ_discrete container 2)
        (map call_of (Use.put 1 10 ∷ Use.put 2 20 ∷ Use.get 1 ∷ Use.put 3 30 ∷ []))
      ≡ ok (c', es))
    × (view c' ≡ last 2 (foldl (note ℕ_discrete ℕ_discrete) [] es))
run-last_example =
    run-last ℕ_discrete container 2 (Use.put 1 10 ∷ Use.put 2 20 ∷ Use.get 1 ∷ Use.put 3 30 ∷ [])
      (λ e. ground arith)
