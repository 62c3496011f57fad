-- ===== src/LruCache.antt =====
-- src/main/cpp/include/ezbake/common/lrucache/LRUCache.h: the class LRUCache over the interface
-- Bimap. A method takes the cache and returns the cache after it beside its result. Each holds the
-- object's mutex throughout, so a run of several threads is a sequence of whole methods.
-- `undefined` is an access through an iterator that stands at no entry.
pub mod Iterators
pub mod Refinement
pub mod Removal
pub mod Sets
pub mod Run
pub mod Recency
pub mod Queries
pub mod Spec
pub mod Uses
pub mod Retention
pub mod Recent
pub mod Handled
pub mod Observed
use ezbake_common.Bimap.{Bimap}
use ezbake_common.Common.{
  ℕ, suc, ◌+◌, ◌%◌, ◌^◌, ite, not, ◌&&◌, Bool, true, false, List, [], ◌∷◌, Option, none, some,
  Outcome, ok, undefined, ◌>>=◌, length, get_elem?, ltb, leb, ◌==◌, if◌then◌else◌,
}
use ezbake_common.StdSet

-- `static_cast<unsigned int>`, with an unsigned int of 32 bits.
abbrev pub to_unsigned : ℕ → ℕ
to_unsigned n = n % 2 ^ 32

pub record LruCache {ℓ} {K V : Type ℓ} {dk : Discrete K} (B : Bimap V dk) : Type ℓ where
  pub capacity : ℕ
  pub store : B.Store

-- The search of `getLruEntry` for the entry nearest to the front of the list view.
unfoldable pub lru_scan : ℕ → List ℕ → ℕ
lru_scan entry [] = entry
lru_scan entry (itr ∷ range) = lru_scan (if ltb itr entry then itr else entry) range

-- `range.first`, and the search from there.
unfoldable pub lru_of_range : List ℕ → Option ℕ
unfolding lru_scan
lru_of_range [] = none
lru_of_range (first ∷ rest) = some (lru_scan first (first ∷ rest))

module _ {ℓ} {K V : Type ℓ} {dk : Discrete K} (dv : Discrete V) (B : Bimap V dk) where
  open B use {Store, right, left}

  -- The loop of `getKey` over the list view.
  unfoldable pub key_of : V → List (K × V) → Option K
  key_of v [] = none
  key_of v (e ∷ l) = ite (dv e.1 v) (some e.0) (key_of v l)

  unfoldable pub init : ℕ → LruCache B
  init capacity = record { capacity = capacity; store = B.empty }

  -- What an iterator points at.
  unfoldable pub deref : Store → Option ℕ → Outcome (K × V)
  deref s none = undefined
  deref s (some i) = elim (get_elem? (right s) i) [ none ↦ undefined | some e ↦ ok e ]

  unfoldable pub contains_key : LruCache B → K → Bool
  contains_key c k = elim (B.find c.store k) [ none ↦ false | some _ ↦ true ]

  unfoldable pub get_key : LruCache B → V → Option K
  unfolding key_of
  get_key c v = key_of v (right c.store)

  unfoldable pub contains_value : LruCache B → V → Bool
  unfolding get_key
  contains_value c v = elim (get_key c v) [ none ↦ false | some _ ↦ true ]

  unfoldable pub clear : LruCache B → LruCache B
  clear c = record c { store = B.clear c.store }

  unfoldable pub size : LruCache B → ℕ
  size c = to_unsigned (length (right c.store))

  unfoldable pub is_empty : LruCache B → Bool
  unfolding size
  is_empty c = size c == 0

  unfoldable pub is_full : LruCache B → Bool
  unfolding size
  is_full c = if c.capacity == 0 then false else leb c.capacity (size c)

  unfoldable pub value_range : LruCache B → K → ℕ
  value_range c k = to_unsigned (length (B.equal_range c.store k))

  unfoldable pub entry_set : (K × V → K × V → Bool) → LruCache B → List (K × V)
  unfolding StdSet.insert_all
  entry_set less c = StdSet.insert_all less (left c.store) []

  -- The do-while loop of `valueSet`: `itr` is read before it is compared with `range.second`.
  unfoldable pub value_set_loop : (V → V → Bool) → Store → List V → ℕ → List ℕ → Outcome (List V)
  unfolding StdSet.insert
  value_set_loop less s set itr [] = do e ← deref s (some itr); ok (StdSet.insert less e.1 set)
  value_set_loop less s set itr (next ∷ range) = do
    e ← deref s (some itr)
    value_set_loop less s (StdSet.insert less e.1 set) next range

  -- At an empty range the loop reads `range.first`, which is `end()`.
  unfoldable pub value_set_of : (V → V → Bool) → Store → List ℕ → Outcome (List V)
  unfolding value_set_loop
  value_set_of less s [] = do e ← deref s none; ok (StdSet.insert less e.1 [])
  value_set_of less s (first ∷ range) = value_set_loop less s [] first range

  unfoldable pub value_set : (V → V → Bool) → LruCache B → K → Outcome (List V)
  unfolding value_set_of
  value_set less c k = value_set_of less c.store (B.equal_range c.store k)

  -- The loop of `findEntry` over the range of a key; `none` is `_cache.left.end()`.
  unfoldable pub find_in_range : Store → V → List ℕ → Outcome (Option ℕ)
  find_in_range s v [] = ok none
  find_in_range s v (itr ∷ range) = do
    e ← deref s (some itr)
    ite (dv e.1 v) (ok (some itr)) (find_in_range s v range)

  unfoldable pub find_entry : Store → K → V → Outcome (Option ℕ)
  unfolding find_in_range
  find_entry s k v = find_in_range s v (B.equal_range s k)

  -- Whether the key was found, and the iterator that `entry` is set to.
  unfoldable pub get_lru_entry : Store → K → Bool × Option ℕ
  unfolding lru_of_range
  get_lru_entry s k = elim (B.find s k) [
    | none ↦ (false, none)
    | some _ ↦ (true, lru_of_range (B.equal_range s k))
  ]

  -- `relocate(end(), entry)` and `erase(entry)`, after `entry` was read.
  abbrev relocate_entry : Store → Option ℕ → Store
  relocate_entry s none = s
  relocate_entry s (some i) = B.relocate_end s i

  abbrev erase_entry : Store → Option ℕ → Store
  erase_entry s none = s
  erase_entry s (some i) = B.erase s i

  unfoldable pub get : LruCache B → K → Outcome (LruCache B × Option V)
  unfolding get_lru_entry
  get c k =
      let (found, entry) = get_lru_entry c.store k in
      if found
      then (do
        e ← deref c.store entry
        ok (record c { store = relocate_entry c.store entry }, some e.1))
      else ok (c, none)

  unfoldable pub pop : LruCache B → K → Outcome (LruCache B × Option V)
  unfolding get_lru_entry
  pop c k =
      let (found, entry) = get_lru_entry c.store k in
      if found
      then (do
        e ← deref c.store entry
        ok (record c { store = erase_entry c.store entry }, some e.1))
      else ok (c, none)

  -- `_cache.right.erase(_cache.right.begin())` at capacity.
  unfoldable pub evict : ℕ → Store → Outcome Store
  evict capacity s =
      if not (capacity == 0) && leb capacity (length (right s))
      then (do _ ← deref s (some 0); ok (B.erase s 0))
      else ok s

  unfoldable pub put : LruCache B → K → V → Outcome (LruCache B)
  unfolding find_entry evict
  put c k v = do
    itr ← find_entry c.store k v
    s ← evict c.capacity (erase_entry c.store itr)
    ok (record c { store = B.insert s k v })

  -- The loop of `remove(key)` that collects the values of the range.
  unfoldable pub values_in_range : Store → List ℕ → Outcome (List V)
  values_in_range s [] = ok []
  values_in_range s (itr ∷ range) = do
    e ← deref s (some itr)
    rest ← values_in_range s range
    ok (e.1 ∷ rest)

  unfoldable pub remove_key : LruCache B → K → Outcome (LruCache B × List V)
  unfolding values_in_range
  remove_key c k = do
    removed ← values_in_range c.store (B.equal_range c.store k)
    ok (record c { store = B.erase_key c.store k }, removed)

  -- `valueRemoved = itr->second; erase(itr)` where the entry was found.
  unfoldable pub remove_found : LruCache B → Option ℕ → Outcome (LruCache B × Option V)
  remove_found c none = ok (c, none)
  remove_found c (some i) = do
    e ← deref c.store (some i)
    ok (record c { store = B.erase c.store i }, some e.1)

  unfoldable pub remove_value : LruCache B → K → V → Outcome (LruCache B × Option V)
  unfolding find_entry remove_found
  remove_value c k v = do itr ← find_entry c.store k v; remove_found c itr
