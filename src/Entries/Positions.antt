-- ===== src/Entries/Positions.antt =====
-- Where the entries of a key stand.
use mathlib.Core.List.{
  filter_map, filter_map-cons-some, append_assoc, not-mem-nil, mem-cons_self, mem-cons_of_mem,
  mem-cons,
}
use mathlib.Core.Logic.Or
use mathlib.Core.Option.{map, get_or}
use native.Mathlib.Nat.{add-zero, add-suc, suc-add}
use native.Mathlib.Bridge.{le_prop}
use ezbake_common.Common.{
  ℕ, zero, suc, ◌+◌, ◌≤◌, ◌≡◌, refl, ap, ◌∙◌, length-append, ◌⊎◌, inl, inr, ite, if_pos, if_neg,
  List, [], ◌∷◌, ◌++◌, Option, none, some, Mem, arith, length, get_elem?, erase_idx, Bool, true,
  false, test,
}
use ezbake_common.Entries.{positions, oldest, drop_oldest, values}

module _ {ℓ} {K V : Type ℓ} (dk : Discrete K) (k : K) where
  -- Whether an entry that was read has the key.
  abbrev pub has_key : Option (K × V) → Bool
  has_key none = false
  has_key (some e) = test (dk e.0 k)

  pub has_key-eq_true : (o : Option (K × V)) → has_key o ≡ true → (v : V) × (o ≡ some (k, v))
  has_key-eq_true none h = cc
  has_key-eq_true (some e) h =
      elim (dk e.0 k) as (λ d. test d ≡ true → (v : V) × (some e ≡ some (k, v))) [
        | yes p ↦ λ _. (e.1, ap (λ (x : K). some (x, e.1)) p)
        | no p ↦ λ q. absurd (ground arith)
      ]
        h

  le_of_mem-positions : (i : ℕ) (l : List (K × V)) {j : ℕ} → Mem j (positions dk i k l) → i ≤ j
  unfolding positions
  le_of_mem-positions i [] m = absurd (not-mem-nil m)
  le_of_mem-positions i (e ∷ l) {j} m =
      elim (dk e.0 k)
          as (λ d.
            Mem j (ite d (i ∷ positions dk (suc i) k l) (positions dk (suc i) k l)) → i ≤ j) [
              | yes p ↦ λ n.
                  Or.elim le_prop (mem-cons.0 n) (λ q. omega arith)
                    (λ r. let h = le_of_mem-positions (suc i) l r in omega arith)
              | no p ↦ λ n. let h = le_of_mem-positions (suc i) l n in omega arith
            ]
        m

  -- A key without entries has no positions; else the first position is that of the oldest entry.
  pub positions-cases :
      (i : ℕ) (l : List (K × V))
      → ((oldest dk k l ≡ none) × (positions dk i k l ≡ []))
        ⊎ ((v : V) × (p : ℕ) × (r : List ℕ) × (oldest dk k l ≡ some v)
            × (positions dk i k l ≡ (i + p) ∷ r)
            × (get_elem? l p ≡ some (k, v))
            × (erase_idx l p ≡ drop_oldest dk k l))
  unfolding positions oldest drop_oldest
  positions-cases i [] = inl (refl, refl)
  positions-cases i (e ∷ l) = elim (dk e.0 k) [
    | yes p ↦ inr (
      e.1,
      0,
      positions dk (suc i) k l,
      rw (if_pos _ p),
      ground arith,
      ground arith,
      rw (if_pos _ p),
    )
    | no p ↦ elim (positions-cases (suc i) l) [
      | inl (o, q) ↦ inl (rw (if_neg _ p) o, rw (if_neg _ p) q)
      | inr (v, j, r, o, q, g, d) ↦
          inr (v, suc j, r, rw (if_neg _ p) o, ground (arith, q), g, rw (if_neg _ p) (ap (◌∷◌ e) d))
    ]
  ]

  -- The position of every entry with the key is there, and only those.
  pub mem-positions :
      (i : ℕ) (l : List (K × V)) (j : ℕ) {v : V}
      → get_elem? l j ≡ some (k, v)
      → Mem (i + j) (positions dk i k l)
  unfolding positions
  mem-positions i [] j h = cc
  mem-positions i (e ∷ l) zero {v} h =
      let p : e.0 ≡ k = ap (λ (o : Option (K × V)). get_or (map (λ e. e.0) o) k) h in
      rw (if_pos _ p, add-zero) mem-cons_self
  mem-positions i (e ∷ l) (suc j) h =
      let m : Mem (i + suc j) (positions dk (suc i) k l) =
        rw (add-suc, ← suc-add) (mem-positions (suc i) l j h) in
      elim (dk e.0 k) [ yes p ↦ rw (if_pos _ p) (mem-cons_of_mem i m) | no p ↦ rw (if_neg _ p) m ]

  pub has_key_of_mem-positions :
      (i : ℕ) (l : List (K × V)) (j : ℕ)
      → Mem (i + j) (positions dk i k l)
      → has_key (get_elem? l j) ≡ true
  unfolding positions
  has_key_of_mem-positions i [] j m = absurd (not-mem-nil m)
  has_key_of_mem-positions i (e ∷ l) zero m =
      elim (dk e.0 k)
          as (λ d.
            Mem (i + 0) (ite d (i ∷ positions dk (suc i) k l) (positions dk (suc i) k l))
            → test d ≡ true) [
              | yes p ↦ λ _. refl
              | no p ↦ λ n. let h = le_of_mem-positions (suc i) l n in absurd (omega arith)
            ]
        m
  has_key_of_mem-positions i (e ∷ l) (suc j) m =
      elim (dk e.0 k)
          as (λ d.
            Mem (i + suc j) (ite d (i ∷ positions dk (suc i) k l) (positions dk (suc i) k l))
            → has_key (get_elem? l j) ≡ true) [
              | yes p ↦ λ n.
                  Or.elim (hlevel) (mem-cons.0 n) (λ q. absurd (omega arith))
                    (λ r. has_key_of_mem-positions (suc i) l j (rw (add-suc, ← suc-add) at r))
              | no p ↦ λ n. has_key_of_mem-positions (suc i) l j (rw (add-suc, ← suc-add) at n)
            ]
        m

  -- The first position is the smallest.
  pub le_of_positions-head :
      (i : ℕ) (l : List (K × V)) {q : ℕ} {r : List ℕ}
      → positions dk i k l ≡ q ∷ r
      → (j : ℕ) → Mem j (positions dk i k l)
      → q ≤ j
  unfolding positions
  le_of_positions-head i [] h j m = absurd (not-mem-nil m)
  le_of_positions-head i (e ∷ l) {q} {r} h j m = elim (dk e.0 k) [
    | yes p ↦
        let a : i ≤ j = le_of_mem-positions i (e ∷ l) m in
        let b : i ∷ positions dk (suc i) k l ≡ q ∷ r = rw (if_pos _ p) at h in
        let c : i ≡ q = cc in omega arith
    | no p ↦ le_of_positions-head (suc i) l (rw (if_neg _ p) at h) j (rw (if_neg _ p) at m)
  ]

-- The value that stands at a position.
abbrev pub value_at {ℓ} : {K V : Type ℓ} → List (K × V) → ℕ → Option V
value_at l i = map (λ e. e.1) (get_elem? l i)

pub value_at-eq_some {ℓ} :
    {K V : Type ℓ} (l : List (K × V)) (i : ℕ) {k : K} {v : V}
    → get_elem? l i ≡ some (k, v)
    → value_at l i ≡ some v
value_at-eq_some {K} {V} l i h = ap (map (λ (e : K × V). e.1)) h

-- An entry that is looked up behind a prefix.
get_elem?-append_length {ℓ} :
    {A : Type ℓ} (xs ys : List A) (x : A) → get_elem? (xs ++ x ∷ ys) (length xs) ≡ some x
get_elem?-append_length [] ys x = refl
get_elem?-append_length (y ∷ xs) ys x = get_elem?-append_length xs ys x

module _ {ℓ} {K V : Type ℓ} (dk : Discrete K) (k : K) where
  -- The values of a key are those at its positions.
  values-positions_behind :
      (pre l : List (K × V))
      → filter_map (value_at (pre ++ l)) (positions dk (length pre) k l) ≡ values dk k l
  unfolding positions values filter_map
  values-positions_behind pre [] = refl
  values-positions_behind pre (e ∷ l) =
      let f = value_at (pre ++ e ∷ l) in
      let here : f (length pre) ≡ some e.1 =
        ap (map (λ (e : K × V). e.1)) (get_elem?-append_length pre l e) in
      let n : length (pre ++ e ∷ []) ≡ suc (length pre) =
        omega (arith, length-append pre (e ∷ [])) in
      let later : filter_map f (positions dk (suc (length pre)) k l) ≡ values dk k l =
        rw (append_assoc, n) at (values-positions_behind (pre ++ e ∷ []) l) in
      elim (dk e.0 k) [
        | yes p ↦
            rw (if_pos {C = List ℕ} _ p, if_pos {C = List V} _ p)
              (filter_map-cons-some f (length pre) _ here ∙ ap (◌∷◌ e.1) later)
        | no p ↦ rw (if_neg {C = List ℕ} _ p, if_neg {C = List V} _ p) later
      ]

  pub values-positions :
      (l : List (K × V)) → filter_map (value_at l) (positions dk 0 k l) ≡ values dk k l
  values-positions l = values-positions_behind [] l
