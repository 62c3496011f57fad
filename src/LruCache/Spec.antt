-- ===== src/LruCache/Spec.antt =====
-- What LRUCache.h promises to its callers: every method as a request to a plain list of entries,
-- the least recently used first, with the answer that the caller sees. The values that
-- `remove(key)` returns are a bag, since their order is not promised.
use mathlib.Core.List.{dec_mem}
use mathlib.Core.Quot.{Quot}
use ezbake_common.Common.{
  ℕ, ◌==◌, ite, Bool, true, false, List, [], ◌∷◌, Option, none, some, Perm, Outcome, ok, undefined,
  ◌>>=◌, length, leb, if◌then◌else◌,
}
use ezbake_common.Entries
use ezbake_common.LruCache.{to_unsigned}
use ezbake_common.StdSet

-- Lists up to their order.
abbrev pub Bag {ℓ} : Type ℓ → Type ℓ
Bag V = Quot (Perm {A = V})

-- The public methods.
pub data Request {ℓ} (K V : Type ℓ) : Type ℓ where
  capacity size is_empty is_full : Request K V
  contains_key value_range : K → Request K V
  contains_value get_key : V → Request K V
  entry_set : Request K V
  value_set : K → Request K V
  get pop remove_key : K → Request K V
  put remove_value : K → V → Request K V
  clear : Request K V

pub data Answer {ℓ} (K V : Type ℓ) : Type ℓ where
  done : Answer K V
  number : ℕ → Answer K V
  flag : Bool → Answer K V
  key : Option K → Answer K V
  value : Option V → Answer K V
  values : Bag V → Answer K V
  set : List V → Answer K V
  entries : List (K × V) → Answer K V

abbrev pub is_some {ℓ} : {A : Type ℓ} → Option A → Bool
is_some none = false
is_some (some a) = true

-- The answers to a sequence of requests.
unfoldable pub serve {ℓ} :
    {S R A : Type ℓ} → (S → R → Outcome (S × A)) → S → List R → Outcome (List A)
serve respond s [] = ok []
serve respond s (request ∷ requests) = do
  (s', answer) ← respond s request
  answers ← serve respond s' requests
  ok (answer ∷ answers)

module _ {ℓ} {K V : Type ℓ} (dk : Discrete K) (dv : Discrete V) (less_v : V → V → Bool)
    (less_e : K × V → K × V → Bool) (limit : ℕ) where
  -- The key of the first entry with a value.
  unfoldable pub key_with : V → List (K × V) → Option K
  key_with v [] = none
  key_with v (e ∷ l) = ite (dv e.1 v) (some e.0) (key_with v l)

  unfoldable pub value_set_of_values : List V → Outcome (List V)
  unfolding StdSet.insert_all
  value_set_of_values [] = undefined
  value_set_of_values (v ∷ vs) = ok (StdSet.insert_all less_v (v ∷ vs) [])

  unfoldable pub respond : List (K × V) → Request K V → Outcome (List (K × V) × Answer K V)
  unfolding key_with value_set_of_values
  respond l Request.capacity = ok (l, number limit)
  respond l Request.size = ok (l, number (to_unsigned (length l)))
  respond l Request.is_empty = ok (l, flag (to_unsigned (length l) == 0))
  respond l Request.is_full =
      ok (l, flag (if limit == 0 then false else leb limit (to_unsigned (length l))))
  respond l (Request.contains_key k) = ok (l, flag (is_some (Entries.oldest dk k l)))
  respond l (Request.value_range k) = ok (l, number (to_unsigned (length (Entries.values dk k l))))
  respond l (Request.contains_value v) = ok (l, flag (is_some (key_with v l)))
  respond l (Request.get_key v) = ok (l, key (key_with v l))
  respond l Request.entry_set = ok (l, entries (StdSet.insert_all less_e l []))
  respond l (Request.value_set k) = do
    vs ← value_set_of_values (Entries.values dk k l)
    ok (l, set vs)
  respond l (Request.get k) = ok (Entries.touch dk k l, value (Entries.oldest dk k l))
  respond l (Request.pop k) = ok (Entries.drop_oldest dk k l, value (Entries.oldest dk k l))
  respond l (Request.remove_key k) =
      ok (Entries.drop_key dk k l, values (Quot.mk (Entries.values dk k l)))
  respond l (Request.put k v) = ok (Entries.put dk dv limit k v l, done)
  respond l (Request.remove_value k v) = ok (
    Entries.drop_entry dk dv k v l,
    value (ite (dec_mem (Entries.entry_discrete dk dv) (k, v) l) (some v) none),
  )
  respond l Request.clear = ok ([], done)
