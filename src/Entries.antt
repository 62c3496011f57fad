-- ===== src/Entries.antt =====
-- Lists of key-value pairs, the least recently used first: the abstract view of the cache, and
-- what the methods of LRUCache.h mean on it.
pub mod Positions
pub mod Unique
pub mod Erase
pub mod Within
pub mod Last
pub mod Without
pub mod Full
use mathlib.Core.List.{erase}
use ezbake_common.Common.{
  ap, ℕ, zero, suc, ◌≤◌, ite, List, [], ◌∷◌, ◌++◌, Option, none, some, length, get_elem?, erase_idx,
  leb, if◌then◌else◌, ◌==◌, not, ◌&&◌,
}

-- The entry at a position moved to the end; nothing where there is none.
unfoldable pub move_to_end {ℓ} : {A : Type ℓ} → ℕ → List A → List A
move_to_end i l = elim (get_elem? l i) [ none ↦ l | some e ↦ erase_idx l i ++ e ∷ [] ]

-- A full cache gives up its first entry.
unfoldable pub make_room {ℓ} : {A : Type ℓ} → ℕ → List A → List A
make_room capacity l = if not (capacity == 0) && leb capacity (length l) then erase_idx l 0 else l

module _ {ℓ} {K V : Type ℓ} (dk : Discrete K) where
  -- The positions of the entries with a key, in ascending order, counted from `i`.
  unfoldable pub positions : ℕ → K → List (K × V) → List ℕ
  positions i k [] = []
  positions i k (e ∷ l) = ite (dk e.0 k) (i ∷ positions (suc i) k l) (positions (suc i) k l)

  -- The least recently used value of a key.
  unfoldable pub oldest : K → List (K × V) → Option V
  oldest k [] = none
  oldest k (e ∷ l) = ite (dk e.0 k) (some e.1) (oldest k l)

  -- The list without the least recently used entry of a key.
  unfoldable pub drop_oldest : K → List (K × V) → List (K × V)
  drop_oldest k [] = []
  drop_oldest k (e ∷ l) = ite (dk e.0 k) l (e ∷ drop_oldest k l)

  -- A use of a key moves its least recently used entry to the end.
  unfoldable pub touch : K → List (K × V) → List (K × V)
  touch k l = elim (oldest k l) [ none ↦ l | some v ↦ drop_oldest k l ++ (k, v) ∷ [] ]

  -- The values of a key, and the entries of the other keys.
  unfoldable pub values : K → List (K × V) → List V
  values k [] = []
  values k (e ∷ l) = ite (dk e.0 k) (e.1 ∷ values k l) (values k l)

  unfoldable pub drop_key : K → List (K × V) → List (K × V)
  drop_key k [] = []
  drop_key k (e ∷ l) = ite (dk e.0 k) (drop_key k l) (e ∷ drop_key k l)

  module _ (dv : Discrete V) where
    -- Pairs are equal where both parts are.
    unfoldable pub entry_discrete : Discrete (K × V)
    entry_discrete e f = elim (dk e.0 f.0) [
      | yes p ↦ elim (dv e.1 f.1) [
        | yes q ↦ yes (λ i. (p i, q i))
        | no n ↦ no (λ r. n (ap (λ (x : K × V). x.1) r))
      ]
      | no n ↦ no (λ r. n (ap (λ (x : K × V). x.0) r))
    ]

    -- The list without the first entry (k, v).
    abbrev pub drop_entry : K → V → List (K × V) → List (K × V)
    drop_entry k v l = erase entry_discrete l (k, v)

    -- A new entry: an equal one is dropped first, then room is made.
    unfoldable pub put : ℕ → K → V → List (K × V) → List (K × V)
    put capacity k v l = make_room capacity (drop_entry k v l) ++ (k, v) ∷ []
