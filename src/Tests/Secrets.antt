-- ===== src/Tests/Secrets.antt =====
-- The encryptor with a digest and a cipher that change nothing, as in
-- src/test/cpp/security/PbeMd5AndDesEncryptorTests.cpp.
use ezbake_common.Common.{
  ◌⊎◌, ◌-◌, ◌%◌, length, get_elem?, pos, negsuc, ◌≡◌, ◌≢◌, refl, [], ◌∷◌, ◌++◌, none, some, ℕ,
  Bytes, codes, ok, throw, undefined, arith,
}
use ezbake_common.OpenSsl.Identity.{identity_bio, identity_crypto}
use ezbake_common.Security.Base64
use ezbake_common.Security.Decrypt.{Unpadded, decrypt-cases}
use ezbake_common.Security.Failures.{checked, shared_secret-cases}
use ezbake_common.Security.Pbe
use ezbake_common.Security.Pbe.{
  PbeMd5AndDesKey, without_padding, encrypt, decrypt, short_salt, digest_error,
}
use ezbake_common.Security.Providers
use ezbake_common.Security.Providers.{
  default_iterations, security_exception, shared_secret, guarded,
}
use ezbake_common.Security.RoundTrip.{decrypt-encrypt, encrypt-returns, encrypt_undefined}
use ezbake_common.Text

abbrev message : Bytes
message = codes "abc"

abbrev password : Bytes
password = codes "secret"

abbrev salt : Bytes
salt = codes "12345678"

abbrev encrypted : Bytes
encrypted = codes "abc" ++ 5 ∷ 5 ∷ 5 ∷ 5 ∷ 5 ∷ []

program : Unit {0}
unfolding Pbe.digest Pbe.encrypt Pbe.decrypt Pbe.rehash_loop Pbe.unpad Pbe.without_padding
    Base64.decode Base64.decode_data Base64.to_int Base64.encode_unsigned Text.take Text.drop
    shared_secret guarded
program = tt

encrypt_run : encrypt identity_crypto identity_bio message password salt (pos 2) ≡ ok encrypted
unfolding program
encrypt_run = refl

decrypt_run :
    (decrypt identity_crypto identity_bio encrypted password salt (pos 2) ≡ ok message)
    × (decrypt identity_crypto identity_bio [] password salt (pos 2) ≡ undefined)
    × (decrypt identity_crypto identity_bio message password salt (pos 2) ≡ undefined)
unfolding program
decrypt_run = (refl, refl, refl)

decrypt-encrypt_example :
    decrypt identity_crypto identity_bio encrypted password salt (pos 2) ≡ ok message
decrypt-encrypt_example =
    decrypt-encrypt identity_crypto identity_bio message password salt (pos 2) (omega arith)
      encrypted encrypt_run

encrypt-returns_example :
    (e : Bytes) × (encrypt identity_crypto identity_bio message password salt (pos 2) ≡ ok e)
encrypt-returns_example =
    encrypt-returns identity_crypto identity_bio message password salt 1 (omega arith) (omega arith)
      (λ d e. ground arith) (λ hash _ e. ground arith)

encrypt_undefined_example :
    (encrypt identity_crypto identity_bio message password salt (negsuc 0) ≡ undefined)
    × (decrypt identity_crypto identity_bio encrypted password salt (negsuc 0) ≡ undefined)
unfolding program
encrypt_undefined_example =
    encrypt_undefined identity_crypto identity_bio message password salt (negsuc 0) encrypted
      encrypted (λ n e. ground arith) (omega arith) (λ d e. ground arith) refl

shared_secret-cases_example :
    ((e : Bytes) × ((shared_secret identity_crypto identity_bio password).encrypt message ≡ ok e)
      × ((shared_secret identity_crypto identity_bio password).decrypt e ≡ ok message))
    ⊎ ((d : Bytes) × (identity_crypto.md5 d ≡ none)
        × ((shared_secret identity_crypto identity_bio password).encrypt message
            ≡ throw (
                security_exception
                  (codes "Error in encrypting string: " ++ codes "Error in generating digest"))))
    ⊎ ((hash : Bytes) × (Pbe.generate_data_hash identity_crypto password Providers.salt
            default_iterations
          ≡ ok hash)
        × (checked identity_crypto hash ≡ none)
        × ((shared_secret identity_crypto identity_bio password).encrypt message ≡ undefined))
shared_secret-cases_example =
    shared_secret-cases identity_crypto identity_bio password message (omega arith)

-- What the digest that changes nothing makes of the password and the salt.
abbrev test_key : PbeMd5AndDesKey identity_crypto
test_key = record { schedule = some (codes "secret12"); ivec = codes "345678" }

decrypt-cases_example :
    (((length encrypted ≡ 0) ⊎ (length encrypted % 8 ≢ 0) ⊎ (test_key.schedule ≡ none))
      × (decrypt identity_crypto identity_bio encrypted password salt (pos 2) ≡ undefined))
    ⊎ ((schedule : Bytes) × (last : ℕ) × (text : Bytes) × (test_key.schedule ≡ some schedule)
        × (get_elem? encrypted (length encrypted - 1) ≡ some last)
        × (decrypt identity_crypto identity_bio encrypted password salt (pos 2) ≡ ok text)
        × Unpadded encrypted last text)
unfolding program
decrypt-cases_example =
    decrypt-cases identity_crypto identity_bio encrypted encrypted password salt (pos 2) test_key
      refl (omega arith) refl
