-- ===== src/Common/Lists.antt =====
-- Lists measured and indexed by native numbers.
use Prim.Native.Char.{code}
use Prim.Native.Nat.{ℕ, zero, suc, ◌+◌, ◌≤◌, ◌<◌}
use Prim.Native.String.{String}
use mathlib.Core.List.Memᴰ
use mathlib.Core.List.{Memᴰ, List, [], ◌∷◌, ◌++◌, filter, Mem, mem-cons_self, mem-cons_of_mem}
use mathlib.Core.Logic.{◌⊎◌, inl, inr, ∥∥₁_map}
use mathlib.Core.Option.{Option, none, some}
use mathlib.Core.Path.{◌≡◌, refl, sym, ap}
use native.Mathlib.Omega.{arith}

-- The code points of a literal, which are its bytes where it is ASCII.
abbrev pub codes : String → List ℕ
codes String.[] = []
codes (String.◌∷◌ c s) = code c ∷ codes s

module _ {ℓ} {A : Type ℓ} where
  abbrev pub length : List A → ℕ
  length [] = 0
  length (x ∷ xs) = suc (length xs)

  abbrev pub get_elem? : List A → ℕ → Option A
  get_elem? [] i = none
  get_elem? (x ∷ xs) zero = some x
  get_elem? (x ∷ xs) (suc i) = get_elem? xs i

  -- The list without its element at a position.
  abbrev pub erase_idx : List A → ℕ → List A
  erase_idx [] i = []
  erase_idx (x ∷ xs) zero = xs
  erase_idx (x ∷ xs) (suc i) = x ∷ erase_idx xs i

  pub List-cases : (xs : List A) → (xs ≡ []) ⊎ ((y : A) × (ys : List A) × (xs ≡ y ∷ ys))
  List-cases [] = inl refl
  List-cases (x ∷ xs) = inr (x, xs, refl)

  pub nil_of_length : (xs : List A) → length xs ≡ 0 → xs ≡ []
  nil_of_length [] h = refl
  nil_of_length (x ∷ xs) h = absurd (omega arith)

  pub length-append : (xs ys : List A) → length (xs ++ ys) ≡ length xs + length ys
  length-append [] ys = omega arith
  length-append (x ∷ xs) ys = omega (arith, length-append xs ys)

  pub lt-length_of_get_elem? :
      (xs : List A) (i : ℕ) {x : A} → get_elem? xs i ≡ some x → i < length xs
  lt-length_of_get_elem? [] i h = cc
  lt-length_of_get_elem? (y ∷ xs) zero h = omega arith
  lt-length_of_get_elem? (y ∷ xs) (suc i) h = omega (arith, lt-length_of_get_elem? xs i h)

  pub mem_of_get_elem? : (xs : List A) (i : ℕ) {x : A} → get_elem? xs i ≡ some x → Mem x xs
  mem_of_get_elem? [] i h = cc
  mem_of_get_elem? (y ∷ xs) zero {x} h = let e : y ≡ x = cc in rw e mem-cons_self
  mem_of_get_elem? (y ∷ xs) (suc i) h = mem-cons_of_mem y (mem_of_get_elem? xs i h)

  get_elem?_of_memᴰ : (xs : List A) {x : A} → Memᴰ x xs → (i : ℕ) × (get_elem? xs i ≡ some x)
  get_elem?_of_memᴰ [] m = absurd (Memᴰ.not-nil m)
  get_elem?_of_memᴰ (y ∷ xs) m = elim (Memᴰ.cases_cons m) [
    | inl e ↦ (0, ap some (sym e))
    | inr n ↦ let (i, e) = get_elem?_of_memᴰ xs n in (suc i, e)
  ]

  pub get_elem?_of_mem :
      {xs : List A} {x : A} → Mem x xs → ∥ ((i : ℕ) × (get_elem? xs i ≡ some x)) ∥₁
  get_elem?_of_mem {xs} m = ∥∥₁_map m (get_elem?_of_memᴰ xs)

  length-filter-le {κ} :
      {P : A → Type κ} (d : (a : A) → Dec (P a)) (xs : List A) → length (filter d xs) ≤ length xs
  length-filter-le d [] = omega arith
  length-filter-le d (x ∷ xs) = ground (arith, length-filter-le d xs)
