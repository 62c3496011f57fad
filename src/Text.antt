-- ===== src/Text.antt =====
-- What the code uses of std::string, std::to_string and boost::lexical_cast. A string is the list
-- of its bytes; a position that may be `npos` is an Option.
pub mod Order
pub mod Decimal
pub mod Find
use ezbake_common.Common.{
  ℕ, zero, suc, ◌+◌, ◌-◌, ◌*◌, ◌/◌, ◌%◌, ◌^◌, ◌<◌, ◌≡◌, ite, Bool, true, false, List, [], ◌∷◌,
  Option, none, some, Bytes, Outcome, ok, throw, Exception, Kind, ltb, ◌==◌, if◌then◌else◌,
}

-- `substr(0, n)` and `substr(n)`.
unfoldable pub take {ℓ} : {A : Type ℓ} → ℕ → List A → List A
take zero s = []
take (suc n) [] = []
take (suc n) (c ∷ s) = c ∷ take n s

unfoldable pub drop {ℓ} : {A : Type ℓ} → ℕ → List A → List A
drop zero s = s
drop (suc n) [] = []
drop (suc n) (c ∷ s) = drop n s

-- `find(c)`
unfoldable pub find : ℕ → Bytes → Option ℕ
find c [] = none
find c (d ∷ s) =
    let later = find c s in
    if d == c then some 0 else elim later [ none ↦ none | some i ↦ some (suc i) ]

-- operator<, which compares bytes in order; a proper prefix is less.
unfoldable pub less : Bytes → Bytes → Bool
less s [] = false
less [] (d ∷ t) = true
less (c ∷ s) (d ∷ t) =
    let rest = less s t in if ltb c d then true else if ltb d c then false else rest

-- operator==
unfoldable pub equal : Bytes → Bytes → Bool
equal [] [] = true
equal [] (d ∷ t) = false
equal (c ∷ s) [] = false
equal (c ∷ s) (d ∷ t) = let rest = equal s t in if c == d then rest else false

-- The decimal digits of `n` in front of `out`; one unit of fuel for each digit is enough.
unfoldable pub digits : ℕ → ℕ → Bytes → Bytes
digits zero n out = out
digits (suc fuel) n out =
    let more = digits fuel (n / 10) ((b'0' + n % 10) ∷ out) in
    if ltb n 10 then (b'0' + n) ∷ out else more

-- `std::to_string` of an unsigned number.
unfoldable pub to_string : ℕ → Bytes
unfolding digits
to_string n = digits (suc n) n []

-- boost::lexical_cast<unsigned int>, which is not part of the repository: it reads back what is
-- printed, and refuses the empty text.
pub record LexicalCast : Type 0 where
  pub to_unsigned_int : Bytes → Outcome ℕ
  pub refusal : Exception
  pub to_unsigned_int-to_string : (n : ℕ) → n < 2 ^ 32 → to_unsigned_int (to_string n) ≡ ok n
  pub to_unsigned_int-nil : to_unsigned_int [] ≡ throw refusal
