-- ===== src/Bimap.antt =====
-- The container that LRUCache.h is built on: boost::bimap of an unordered_multiset_of keys and a
-- list_of values. Boost is not part of the repository, so it is an interface: its operations, and
-- what its documentation says of them. An iterator is the position of its entry in the list view,
-- that is `std::distance(right.begin(), project_right(itr))`; `none` is `end()`.
pub mod Lists
use ezbake_common.Common.{
  ℕ, ◌<◌, ◌≡◌, ◌≢◌, List, [], ◌∷◌, ◌++◌, Option, none, some, Perm, length, erase_idx,
}
use ezbake_common.Entries.{positions, drop_key, move_to_end}

pub record Bimap {ℓ} {K : Type ℓ} (V : Type ℓ) (dk : Discrete K) : Type (ℓ + 1) where
  pub Store : Type ℓ
  -- The entries in the order of the list view (`right`), and of the hashed view (`left`).
  pub right : Store → List (K × V)
  pub left : Store → List (K × V)
  pub empty : Store
  pub find : Store → K → Option ℕ
  pub equal_range : Store → K → List ℕ
  pub insert : Store → K → V → Store
  pub erase : Store → ℕ → Store
  pub erase_key : Store → K → Store
  pub relocate_end : Store → ℕ → Store
  pub clear : Store → Store
  -- Both views show the same entries.
  pub left-right : (s : Store) → Perm (left s) (right s)
  pub right-empty : right empty ≡ []
  pub right-clear : (s : Store) → right (clear s) ≡ []
  -- `find` is `end()` exactly where no entry has the key.
  pub find-none : (s : Store) (k : K) → find s k ≡ none → equal_range s k ≡ []
  pub find-some : (s : Store) (k : K) (i : ℕ) → find s k ≡ some i → equal_range s k ≢ []
  -- The entries with a key are adjacent in the hashed view, in an order that is not specified.
  pub equal_range-positions :
      (s : Store) (k : K) → Perm (equal_range s k) (positions dk 0 k (right s))
  -- `insert` appends to the list view; the other operations keep the order of what they leave.
  pub right-insert : (s : Store) (k : K) (v : V) → right (insert s k v) ≡ right s ++ (k, v) ∷ []
  pub right-erase :
      (s : Store) (i : ℕ) → i < length (right s) → right (erase s i) ≡ erase_idx (right s) i
  pub right-erase_key : (s : Store) (k : K) → right (erase_key s k) ≡ drop_key dk k (right s)
  pub right-relocate_end :
      (s : Store) (i : ℕ)
      → i < length (right s)
      → right (relocate_end s i) ≡ move_to_end i (right s)
