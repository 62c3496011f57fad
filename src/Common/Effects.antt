-- ===== src/Common/Effects.antt =====
-- What a C++ call can do: return, throw, or leave the defined behaviour of the language.
use Prim.Native.Nat.{ℕ}
use mathlib.Core.List.{List}
use mathlib.Core.Path.{◌≡◌, refl}

-- A std::string, as its bytes.
abbrev pub Bytes : Type 0
Bytes = List ℕ

-- The exception classes that the code throws or lets through.
pub data Kind : Type 0 where
  invalid_argument out_of_range length_error runtime_error : Kind
  bad_lexical_cast bad_alloc string_encryptor security : Kind

pub record Exception : Type 0 where
  pub kind : Kind
  pub what : Bytes

pub data Outcome {ℓ} (A : Type ℓ) : Type ℓ where
  ok : A → Outcome A
  throw : Exception → Outcome A
  undefined : Outcome A

infixl 5 ◌>>=◌ ◌>>◌
abbrev pub ◌>>=◌ {ℓ κ} : {A : Type ℓ} {B : Type κ} → Outcome A → (A → Outcome B) → Outcome B
ok a >>= f = f a
throw e >>= f = throw e
undefined >>= f = undefined

abbrev pub ◌>>◌ {ℓ κ} : {A : Type ℓ} {B : Type κ} → Outcome A → Outcome B → Outcome B
m >> k = m >>= λ _. k

-- A chain that returns passed through its first step.
pub >>=-eq_ok {ℓ κ} :
    {A : Type ℓ} {B : Type κ} (m : Outcome A) (f : A → Outcome B) {b : B}
    → (m >>= f) ≡ ok b
    → (a : A) × (m ≡ ok a) × (f a ≡ ok b)
>>=-eq_ok (ok a) f h = (a, refl, h)
>>=-eq_ok (throw e) f h = cc
>>=-eq_ok undefined f h = cc
