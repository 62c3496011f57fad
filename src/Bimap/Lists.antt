-- ===== src/Bimap/Lists.antt =====
-- A container that behaves as the interface Bimap asks: a list, whose hashed view shows the entries
-- in reverse. It shows that the assumptions can be met, and the tests run on it.
use mathlib.Core.List.Permᴰ
use mathlib.Core.List.{reverse}
use ezbake_common.Bimap.{Bimap}
use ezbake_common.Common.{
  ℕ, ◌≡◌, ◌≢◌, refl, List, [], ◌∷◌, ◌++◌, Option, none, some, Perm, arith, erase_idx, List-cases,
  inl, inr,
}
use ezbake_common.Entries.{positions, drop_key, move_to_end}

pub reverse-perm {ℓ} : {A : Type ℓ} (l : List A) → Perm (reverse l) l
reverse-perm l = ∣ Permᴰ.reverse l ∣₁

module _ {ℓ} {K V : Type ℓ} (dk : Discrete K) where
  unfoldable pub equal_range : List (K × V) → K → List ℕ
  unfolding positions
  equal_range l k = reverse (positions dk 0 k l)

  unfoldable pub find : List (K × V) → K → Option ℕ
  unfolding equal_range
  find l k = elim (equal_range l k) [ [] ↦ none | i ∷ _ ↦ some i ]

  pub find-none : (l : List (K × V)) (k : K) → find l k ≡ none → equal_range l k ≡ []
  unfolding find
  find-none l k h = elim (List-cases (equal_range l k)) [
    | inl e ↦ e
    | inr (i, r, e) ↦ absurd (ground (arith, e))
  ]

  pub find-some : (l : List (K × V)) (k : K) (i : ℕ) → find l k ≡ some i → equal_range l k ≢ []
  unfolding find
  find-some l k i h e = let q : ◌≡◌ {A = Option ℕ} none (some i) = rw (e, find) at h in cc

  pub equal_range-positions :
      (l : List (K × V)) (k : K) → Perm (equal_range l k) (positions dk 0 k l)
  unfolding equal_range
  equal_range-positions l k = reverse-perm (positions dk 0 k l)

  abbrev pub list_bimap : Bimap V dk
  list_bimap = record {
    Store = List (K × V);
    right = λ l. l;
    left = reverse;
    empty = [];
    find = find;
    equal_range = equal_range;
    insert = λ l k v. l ++ (k, v) ∷ [];
    erase = erase_idx;
    erase_key = λ l k. drop_key dk k l;
    relocate_end = λ l i. move_to_end i l;
    clear = λ l. [];
    left-right = reverse-perm;
    right-empty = refl;
    right-clear = λ l. refl;
    find-none = find-none;
    find-some = find-some;
    equal_range-positions = equal_range-positions;
    right-insert = λ l k v. refl;
    right-erase = λ l i h. refl;
    right-erase_key = λ l k. refl;
    right-relocate_end = λ l i h. refl;
  }
