-- ===== src/LruTimedCache/Spec.antt =====
-- What LRUTimedCache.h promises to its callers: every method as a request to the plain list of stamped
-- entries, the least recently used first, with the answer that the caller sees. The methods of
-- LRUCache are requests too, those that LRUTimedCache hides by their qualified names.
use mathlib.Core.Quot
use ezbake_common.Common.{
  ℕ, suc, ◌≡◌, Bool, true, false, List, [], ◌∷◌, map, filter, Option, none, some, Outcome, ok,
  undefined, ◌>>=◌, test,
}
use ezbake_common.Entries
use ezbake_common.LruCache.Spec
use ezbake_common.LruCache.Spec.{Bag, is_some}
use ezbake_common.LruTimedCache.Reads.{after_get}
use ezbake_common.LruTimedCache.{CacheValue, cache_value_discrete, expired, unexpired, stamp}
use ezbake_common.StdSet

-- The public methods. A method that reads the clock once has the reading, `get_key` and
-- `contains_value` the sequence of readings.
pub data Request {ℓ} (K V : Type ℓ) : Type ℓ where
  inherited : Spec.Request K (CacheValue V) → Request K V
  expiration entry_set : Request K V
  contains_value get_key : (ℕ → ℕ) → V → Request K V
  value_set remove_key : K → Request K V
  get pop : ℕ → K → Request K V
  put : ℕ → K → V → Request K V
  remove_value : K → V → Request K V

pub data Answer {ℓ} (K V : Type ℓ) : Type ℓ where
  inherited : Spec.Answer K (CacheValue V) → Answer K V
  done : Answer K V
  number : ℕ → Answer K V
  flag : Bool → Answer K V
  key : Option K → Answer K V
  value : Option V → Answer K V
  set : List V → Answer K V
  entries : List (K × V) → Answer K V
  bag : Bag (CacheValue V) → Answer K V
  removed : List (CacheValue V) → Answer K V

-- The values under a key without their timestamps.
unfoldable pub value_set_of_values {ℓ} :
    {V : Type ℓ} → (V → V → Bool) → List (CacheValue V) → Outcome (List V)
unfolding StdSet.insert_all
value_set_of_values less_v [] = undefined
value_set_of_values {V} less_v (cv ∷ cvs) =
    ok (StdSet.insert_all less_v (map (λ (x : CacheValue V). x.value) (cv ∷ cvs)) [])

module _ {ℓ} {K V : Type ℓ} (dk : Discrete K) (dv : Discrete V) where
  -- Whether an entry is of a pair, whatever its timestamp.
  abbrev pub of_pair : (k : K) (v : V) (e : K × CacheValue V) → Dec ((e.0 ≡ k) × (e.1.value ≡ v))
  of_pair k v e = elim (dk e.0 k) [
    | no n ↦ no (λ p. n p.0)
    | yes p ↦ elim (dv e.1.value v) [ no n ↦ no (λ q. n q.1) | yes q ↦ yes (p, q) ]
  ]

  -- The entries of other pairs.
  abbrev pub of_others :
      (k : K) (v : V) (e : K × CacheValue V) → Dec (¬ ((e.0 ≡ k) × (e.1.value ≡ v)))
  of_others k v e = elim (of_pair k v e) [ yes p ↦ no (λ n. n p) | no n ↦ yes n ]

  -- The first key whose entry with the value has not expired at its reading of the clock, the
  -- `i`-th of the readings, and the entries without the expired ones that precede it.
  unfoldable pub live_key :
      ℕ → (ℕ → ℕ) → ℕ → V → List (K × CacheValue V) → Option K × List (K × CacheValue V)
  unfolding expired
  live_key lifetime clock i v [] = (none, [])
  live_key lifetime clock i v (e ∷ l) = elim (test (dv e.1.value v)) [
    | false ↦ let (found, rest) = live_key lifetime clock i v l in (found, e ∷ rest)
    | true ↦ elim (expired lifetime (clock i) e.1.timestamp) [
      | true ↦ live_key lifetime clock (suc i) v l
      | false ↦ (some e.0, e ∷ l)
    ]
  ]

  module _ (less_c : CacheValue V → CacheValue V → Bool) (less_v : V → V → Bool)
      (less : K × CacheValue V → K × CacheValue V → Bool) (less_e : K × V → K × V → Bool)
      (limit lifetime : ℕ) where
    unfoldable pub respond :
        List (K × CacheValue V) → Request K V → Outcome (List (K × CacheValue V) × Answer K V)
    unfolding live_key value_set_of_values
    respond l (Request.inherited request) = do
      (l', answer) ← Spec.respond dk (cache_value_discrete dv) less_c less limit l request
      ok (l', Answer.inherited answer)
    respond l Request.expiration = ok (l, number lifetime)
    respond l Request.entry_set =
        let pairs = map (λ (e : K × CacheValue V). (let p : K × V = (e.0, e.1.value) in p)) l in
        ok (l, entries (StdSet.insert_all less_e pairs []))
    respond l (Request.contains_value clock v) =
        let (found, l') = live_key lifetime clock 0 v l in ok (l', flag (is_some found))
    respond l (Request.get_key clock v) =
        let (found, l') = live_key lifetime clock 0 v l in ok (l', key found)
    respond l (Request.value_set k) = do
      vs ← value_set_of_values less_v (Entries.values dk k l)
      ok (l, set vs)
    respond l (Request.remove_key k) =
        ok (Entries.drop_key dk k l, bag (Quot.mk (Entries.values dk k l)))
    respond l (Request.get now k) =
        ok (after_get dk lifetime now k l, value (unexpired lifetime now (Entries.oldest dk k l)))
    respond l (Request.pop now k) =
        ok (Entries.drop_oldest dk k l, value (unexpired lifetime now (Entries.oldest dk k l)))
    respond l (Request.put now k v) =
        ok (Entries.put dk (cache_value_discrete dv) limit k (stamp now v) l, done)
    respond l (Request.remove_value k v) = ok (
      filter (of_others k v) l,
      removed (map (λ e. e.1) (StdSet.insert_all less (filter (of_pair k v) l) [])),
    )
