-- ===== src/Java/Encryption.antt =====
-- src/main/java/ezbake/common/properties/PropertiesEncryptionUtil.java, its functions on values,
-- with src/main/java/ezbake/common/security/TextCryptoProvider.java.
pub mod Laws
use ezbake_common.Common.{
  ℕ, ◌-◌, ◌==◌, ◌&&◌, Bool, true, false, List, [], ◌∷◌, ◌++◌, Option, none, some, codes, length,
  if◌then◌else◌,
}
use ezbake_common.Java.Strings.{trim, starts_with, ends_with, substring}
use ezbake_common.Java.{Chars, Result, returns, throws, ◌>>=◌}

pub record TextCryptoProvider : Type 0 where
  pub encrypt : Chars → Result Chars
  pub decrypt : Chars → Result Chars

unfoldable pub no_op : TextCryptoProvider
no_op = record { encrypt = λ message. returns message; decrypt = λ message. returns message }

abbrev pub property_encryption_prefix : Chars
property_encryption_prefix = codes "ENC~("

abbrev pub property_encryption_suffix : Chars
property_encryption_suffix = codes ")~"

unfoldable pub encrypt_property_value : Chars → TextCryptoProvider → Result Chars
encrypt_property_value value provider = do
  encrypted ← provider.encrypt value
  returns (property_encryption_prefix ++ encrypted ++ property_encryption_suffix)

unfoldable pub is_encrypted_value : Option Chars → Bool
unfolding trim starts_with ends_with
is_encrypted_value none = false
is_encrypted_value (some value) =
    if length value == 0
    then false
    else (let trimmed_value = trim value in
        starts_with trimmed_value property_encryption_prefix
        && ends_with trimmed_value property_encryption_suffix)

unfoldable pub get_inner_value : Chars → Result Chars
unfolding substring
get_inner_value value =
    substring value (length property_encryption_prefix)
      (length value - length property_encryption_suffix)

unfoldable pub decrypt_property_value : Chars → TextCryptoProvider → Result Chars
unfolding get_inner_value
decrypt_property_value value provider = do
  inner_value ← get_inner_value value
  provider.decrypt inner_value
