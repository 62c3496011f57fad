-- ===== src/Java.antt =====
-- The Java half, src/main/java/ezbake/common: what a call can do, and the values it works on. A
-- String is the list of its UTF-16 units, and a reference that may be null is an Option.
pub mod Strings
pub mod Table
pub mod Encryption
pub mod OpenShift
pub mod Resources
pub mod EzProperties
pub mod Sets
pub mod Time
pub mod SharedSecret
pub mod Ssl
use ezbake_common.Common.{
  ℕ, ◌≡◌, ◌⊎◌, inl, inr, refl, Bool, true, false, Bool-cases, List, Option, none, some,
  if◌then◌else◌,
}

abbrev pub Chars : Type 0
Chars = List ℕ

-- The exceptions that the code throws, and those of the libraries that it catches.
-- DuplicatePropertyException carries its keys.
pub data Thrown : Type 0 where
  null_pointer index_out_of_bounds illegal_state illegal_argument io security : Thrown
  ssl_context key_store certificate no_such_algorithm unrecoverable_key key_management : Thrown
  encryption_initialization encryption_operation_not_possible : Thrown
  duplicate_property : List Chars → Thrown

pub data Result {ℓ} (A : Type ℓ) : Type ℓ where
  returns : A → Result A
  throws : Thrown → Result A

infixl 5 ◌>>=◌
abbrev pub ◌>>=◌ {ℓ κ} : {A : Type ℓ} {B : Type κ} → Result A → (A → Result B) → Result B
returns a >>= f = f a
throws e >>= f = throws e

-- `Preconditions.checkNotNull`
unfoldable pub check_not_null {ℓ} : {A : Type ℓ} → Option A → Result A
check_not_null none = throws null_pointer
check_not_null (some a) = returns a

-- A try block whose catch clauses throw another exception.
unfoldable pub catching {ℓ} : {A : Type ℓ} → (Thrown → Bool) → Thrown → Result A → Result A
catching caught thrown (returns a) = returns a
catching caught thrown (throws e) = throws (if caught e then thrown else e)

pub catching-eq_returns {ℓ} :
    {A : Type ℓ} (caught : Thrown → Bool) (thrown : Thrown) (r : Result A) {a : A}
    → catching caught thrown r ≡ returns a
    → r ≡ returns a
unfolding catching
catching-eq_returns caught thrown (returns b) h = h
catching-eq_returns caught thrown (throws e) h = cc

-- A chain that returns passed through its first step.
pub >>=-eq_returns {ℓ κ} :
    {A : Type ℓ} {B : Type κ} (m : Result A) (f : A → Result B) {b : B}
    → (m >>= f) ≡ returns b
    → (a : A) × (m ≡ returns a) × (f a ≡ returns b)
>>=-eq_returns (returns a) f h = (a, refl, h)
>>=-eq_returns (throws e) f h = cc

-- What is thrown, if anything is, meets a predicate.
abbrev pub Throws {ℓ} : {A : Type ℓ} → (Thrown → Type 0) → Result A → Type 0
Throws P (returns a) = Unit
Throws P (throws e) = P e

pub Throws-mono {ℓ} :
    {A : Type ℓ} (P Q : Thrown → Type 0) (r : Result A)
    → ((e : Thrown) → P e → Q e)
    → Throws P r
    → Throws Q r
Throws-mono P Q (returns a) f h = tt
Throws-mono P Q (throws e) f h = f e h

pub >>=-Throws {ℓ κ} :
    {A : Type ℓ} {B : Type κ} (P : Thrown → Type 0) (m : Result A) (f : A → Result B)
    → Throws P m
    → ((a : A) → Throws P (f a))
    → Throws P (m >>= f)
>>=-Throws P (returns a) f h g = g a
>>=-Throws P (throws e) f h g = h

pub catching-Throws {ℓ} :
    {A : Type ℓ} (P : Thrown → Type 0) (caught : Thrown → Bool) (thrown : Thrown) (r : Result A)
    → Throws (λ e. (caught e ≡ true) ⊎ P e) r
    → P thrown
    → Throws P (catching caught thrown r)
unfolding catching
catching-Throws P caught thrown (returns a) h g = tt
catching-Throws P caught thrown (throws e) h g = elim (Bool-cases (caught e)) [
  | inl c ↦ rw c g
  | inr c ↦ elim h [ inl t ↦ absurd (cc) | inr p ↦ rw c p ]
]

pub Result-cases {ℓ} :
    {A : Type ℓ} (r : Result A) → ((a : A) × (r ≡ returns a)) ⊎ ((e : Thrown) × (r ≡ throws e))
Result-cases (returns a) = inl (a, refl)
Result-cases (throws e) = inr (e, refl)
