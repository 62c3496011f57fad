-- ===== src/Text/Find.antt =====
-- Finding a byte, and cutting a text there.
use ezbake_common.Common.{
  ℕ, suc, ◌+◌, ◌≡◌, ◌≢◌, refl, ap, List, [], ◌∷◌, ◌++◌, none, some, Bytes, ◌==◌, arith, length,
  Bool-cases, ==_iff, inl, inr, zero,
}
use native.Mathlib.Numerals.{add-one}
use ezbake_common.Text.{find, take, drop}

-- A text without a byte.
abbrev pub Lacks : ℕ → Bytes → Type 0
Lacks c [] = Unit {0}
Lacks c (d ∷ s) = (d ≢ c) × Lacks c s

find_of_Lacks : (c : ℕ) (s : Bytes) → Lacks c s → find c s ≡ none
unfolding find
find_of_Lacks c [] n = refl
find_of_Lacks c (d ∷ s) (n, h) = ground (arith, find_of_Lacks c s h)

pub Lacks-of_find : (c : ℕ) (s : Bytes) → find c s ≡ none → Lacks c s
unfolding find
Lacks-of_find c [] h = tt
Lacks-of_find c (d ∷ s) h = ground (arith, Lacks-of_find c s)

-- The first place of a byte behind a text that lacks it.
pub find-append : (c : ℕ) (s t : Bytes) → Lacks c s → find c (s ++ c ∷ t) ≡ some (length s)
unfolding find
find-append c [] t n = ground arith
find-append c (d ∷ s) t (n, h) = ground (arith, find-append c s t h)

pub take-append {ℓ} : {A : Type ℓ} (s t : List A) → take (length s) (s ++ t) ≡ s
unfolding take
take-append [] t = refl
take-append (c ∷ s) t = ap (◌∷◌ c) (take-append s t)

drop-append_suc {ℓ} : {A : Type ℓ} (s t : List A) (c : A) → drop (suc (length s)) (s ++ c ∷ t) ≡ t
unfolding drop
drop-append_suc [] t c = refl
drop-append_suc (d ∷ s) t c = drop-append_suc s t c

pub drop-append {ℓ} : {A : Type ℓ} (s t : List A) (c : A) → drop (length s + 1) (s ++ c ∷ t) ≡ t
drop-append s t c = rw add-one (drop-append_suc s t c)

find-some-suc :
    (c : ℕ) (s : Bytes) (i : ℕ)
    → find c s ≡ some i
    → Lacks c (take i s) × (s ≡ take i s ++ c ∷ drop (suc i) s)
unfolding find take drop
find-some-suc c [] i h = cc
find-some-suc c (d ∷ s) zero h = elim (Bool-cases (d == c)) [
  | inl e ↦ (tt, ap (λ (x : ℕ). x ∷ s) ((==_iff d c).0 e))
  | inr e ↦ absurd (ground arith)
]
find-some-suc c (d ∷ s) (suc i) h =
    let later : find c s ≡ some i = ground arith in
    let (lacks, split) = find-some-suc c s i later in ((ground arith, lacks), ap (◌∷◌ d) split)

-- A text is cut at the place that is found, and lacks the byte before it.
pub find-some :
    (c : ℕ) (s : Bytes) (i : ℕ)
    → find c s ≡ some i
    → Lacks c (take i s) × (s ≡ take i s ++ c ∷ drop (i + 1) s)
find-some c s i h = rw add-one (find-some-suc c s i h)
