-- ===== src/Java/Encryption/Laws.antt =====
-- Values that PropertiesEncryptionUtil.java marks as encrypted.
use mathlib.Core.List.{append_assoc}
use ezbake_common.Common.{
  ℕ, ◌-◌, ◌≤◌, ◌≡◌, refl, sym, ap, ◌&&◌, ◌==◌, true, false, [], ◌∷◌, ◌++◌, some, arith, length,
  codes, leb, Bool-cases, Bool, inl, inr,
}
use ezbake_common.Java.Encryption.{
  property_encryption_prefix, property_encryption_suffix, is_encrypted_value, get_inner_value,
}
use ezbake_common.Java.Strings.Laws.{
  trim-append, starts_with-append, ends_with-append, starts_with-append_of, length-trim-le,
  substring-between, substring-returns,
}
use ezbake_common.Java.Strings.{trim, trim_start, starts_with, ends_with}
use ezbake_common.Java.{Chars, returns}
use ezbake_common.Text

-- A text between the marks.
abbrev pub wrapped : Chars → Chars
wrapped text = property_encryption_prefix ++ text ++ property_encryption_suffix

trim-wrapped : (text : Chars) → trim (wrapped text) ≡ wrapped text
trim-wrapped text =
    let apart : wrapped text ≡ b'E' ∷ (codes "NC~(" ++ text ++ codes ")") ++ b'~' ∷ [] =
      ap (property_encryption_prefix ++◌) (sym (append_assoc text (codes ")") (codes "~"))) in
    rw apart (trim-append b'E' (codes "NC~(" ++ text ++ codes ")") b'~' (omega arith) (omega arith))

pub trim-space :
    (space : ℕ) (text : Chars) → space ≤ b' ' → trim (space ∷ wrapped text) ≡ wrapped text
unfolding trim trim_start
trim-space space text low =
    let dropped : leb space b' ' ≡ true = ground arith in rw dropped (trim-wrapped text)

-- A value with the marks at the ends of what trimming leaves is encrypted.
pub IsEncrypted_of_trim :
    (value text : Chars) → trim value ≡ wrapped text → is_encrypted_value (some value) ≡ true
unfolding is_encrypted_value
IsEncrypted_of_trim value text h =
    let shorter = length-trim-le value in
    let size = ap length h in
    let full : (length value == 0) ≡ false = ground arith in
    let start =
      starts_with-append property_encryption_prefix (text ++ property_encryption_suffix) in
    let end = ends_with-append (property_encryption_prefix ++ text) property_encryption_suffix in
    rw (full, h, start, end) refl

pub wrapped-IsEncrypted : (text : Chars) → is_encrypted_value (some (wrapped text)) ≡ true
wrapped-IsEncrypted text = IsEncrypted_of_trim (wrapped text) text (trim-wrapped text)

-- The text is read back.
pub get_inner_value-wrapped : (text : Chars) → get_inner_value (wrapped text) ≡ returns text
unfolding get_inner_value
get_inner_value-wrapped text =
    substring-between property_encryption_prefix text property_encryption_suffix

-- With a unit in front the marks are cut off at the wrong place.
pub get_inner_value-shifted :
    (c : ℕ) (text : Chars) → get_inner_value (c ∷ wrapped text) ≡ returns (b'(' ∷ text)
unfolding get_inner_value
get_inner_value-shifted c text =
    substring-between (c ∷ codes "ENC~") (b'(' ∷ text) property_encryption_suffix

-- The two marks do not overlap.
length-between :
    (rest : Chars)
    → ends_with (property_encryption_prefix ++ rest) property_encryption_suffix ≡ true
    → 2 ≤ length rest
unfolding ends_with starts_with Text.drop
length-between [] h = cc
length-between (c ∷ []) h = cc
length-between (c ∷ d ∷ rest) h = omega arith

length-marked :
    (s : Chars)
    → starts_with s property_encryption_prefix ≡ true
    → ends_with s property_encryption_suffix ≡ true
    → 7 ≤ length s
length-marked s h g =
    let (rest, e) = starts_with-append_of s property_encryption_prefix h in
    let between = length-between rest (rw e at g) in omega (arith, ap length e)

both : (a b : Bool) → (a && b) ≡ true → (a ≡ true) × (b ≡ true)
both true true h = (refl, refl)
both true false h = cc
both false b h = cc

length-encrypted : (value : Chars) → is_encrypted_value (some value) ≡ true → 7 ≤ length value
unfolding is_encrypted_value
length-encrypted value h = elim (Bool-cases (length value == 0)) [
  | inl z ↦ let f = rw (z) at h in cc
  | inr n ↦
      let (start, end) =
        both (starts_with (trim value) property_encryption_prefix)
          (ends_with (trim value) property_encryption_suffix) (rw (n) at h) in
      omega (arith, length-marked (trim value) start end, length-trim-le value)
]

-- The text between the marks of an encrypted value is never out of range.
get_inner_value-returns :
    (value : Chars)
    → is_encrypted_value (some value) ≡ true
    → (text : Chars) × (get_inner_value value ≡ returns text)
unfolding get_inner_value
get_inner_value-returns value h =
    let long = length-encrypted value h in
    substring-returns value 5 (length value - 2) (omega arith) (omega arith)
