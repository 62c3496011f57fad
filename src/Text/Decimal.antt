-- ===== src/Text/Decimal.antt =====
-- `std::to_string` writes the decimal digits of a number: reading them gives the number back.
use mathlib.Core.List.{cons-ne-nil}
use ezbake_common.Common.{
  ℕ, zero, suc, ◌+◌, ◌-◌, ◌*◌, ◌/◌, ◌%◌, ◌^◌, ◌<◌, ◌≡◌, ◌≢◌, refl, ap, [], ◌∷◌, Bytes, arith, ltb,
  Bool-cases, inl, inr, Bool, true, Outcome, ok, throw, bad_lexical_cast, leb, ◌&&◌, if◌then◌else◌,
}
use ezbake_common.Text.{digits, to_string, LexicalCast}

-- The number that decimal digits spell behind `n`.
unfoldable pub spelled : ℕ → Bytes → ℕ
spelled n [] = n
spelled n (c ∷ s) = spelled (n * 10 + (c - b'0')) s

digits-spelled :
    (fuel n : ℕ) (out : Bytes) → n < fuel → spelled 0 (digits fuel n out) ≡ spelled n out
unfolding digits spelled
digits-spelled zero n out h = elim h [ ]
digits-spelled (suc fuel) n out h = elim (Bool-cases (ltb n 10)) [
  | inl e ↦ rw e (ap (λ (m : ℕ). spelled m out) (omega arith))
  | inr e ↦
      rw (e, digits-spelled fuel (n / 10) ((b'0' + n % 10) ∷ out) (ground arith))
        (ap (λ (m : ℕ). spelled m out) (omega arith))
]

-- Whatever the number, its print spells it.
spelled-to_string : (n : ℕ) → spelled 0 (to_string n) ≡ n
unfolding to_string spelled
spelled-to_string n = digits-spelled (suc n) n [] (omega arith)

-- A text of digits only.
unfoldable pub is_number : Bytes → Bool
is_number [] = true
is_number (c ∷ s) = leb b'0' c && leb c b'9' && is_number s

digits-is_number :
    (fuel n : ℕ) (out : Bytes) → is_number out ≡ true → is_number (digits fuel n out) ≡ true
unfolding digits is_number
digits-is_number zero n out h = h
digits-is_number (suc fuel) n out h = elim (Bool-cases (ltb n 10)) [
  | inl e ↦ rw e (ground arith)
  | inr e ↦ rw e (digits-is_number fuel (n / 10) ((b'0' + n % 10) ∷ out) (ground arith))
]

digits-ne-nil : (fuel n : ℕ) (c : ℕ) (out : Bytes) → digits fuel n (c ∷ out) ≢ []
unfolding digits
digits-ne-nil zero n c out = cons-ne-nil c out
digits-ne-nil (suc fuel) n c out = elim (Bool-cases (ltb n 10)) [
  | inl e ↦ rw e (cons-ne-nil (b'0' + n) (c ∷ out))
  | inr e ↦ rw e (digits-ne-nil fuel (n / 10) (b'0' + n % 10) (c ∷ out))
]

to_string-ne-nil : (n : ℕ) → to_string n ≢ []
unfolding to_string
to_string-ne-nil n = elim (Bool-cases (ltb n 10)) [
  | inl e ↦ rw e (cons-ne-nil (b'0' + n) [])
  | inr e ↦ rw e (digits-ne-nil n (n / 10) (b'0' + n % 10) [])
]

-- A cast that reads decimal digits and nothing else.
unfoldable pub read_digits : Bytes → Outcome ℕ
unfolding is_number spelled
read_digits [] = throw (record { kind = bad_lexical_cast; what = [] })
read_digits (c ∷ s) =
    if is_number (c ∷ s) && ltb (spelled 0 (c ∷ s)) (2 ^ 32)
    then ok (spelled 0 (c ∷ s))
    else throw (record { kind = bad_lexical_cast; what = [] })

read_digits_lem :
    (s : Bytes) (n : ℕ)
    → s ≢ []
    → is_number s ≡ true
    → spelled 0 s ≡ n
    → n < 2 ^ 32
    → read_digits s ≡ ok n
unfolding read_digits
read_digits_lem [] n h _ _ _ = absurd (h refl)
read_digits_lem (c ∷ s) n h d e b = ground arith

pub read_digits-to_string : (n : ℕ) → n < 2 ^ 32 → read_digits (to_string n) ≡ ok n
unfolding to_string is_number
read_digits-to_string n b =
    read_digits_lem (to_string n) n (to_string-ne-nil n) (digits-is_number (suc n) n [] refl)
      (spelled-to_string n) b

pub read_digits-nil : read_digits [] ≡ throw (record { kind = bad_lexical_cast; what = [] })
unfolding read_digits
read_digits-nil = refl

abbrev pub decimal_cast : LexicalCast
decimal_cast = record {
  to_unsigned_int = read_digits;
  refusal = record { kind = bad_lexical_cast; what = [] };
  to_unsigned_int-to_string = read_digits-to_string;
  to_unsigned_int-nil = read_digits-nil;
}
