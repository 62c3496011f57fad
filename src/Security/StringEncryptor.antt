-- ===== src/Security/StringEncryptor.antt =====
-- src/main/cpp/include/ezbake/common/security/PbeStringEncryptor.h: the class template that an
-- encryptor derives from, with the default arguments of its own.
use ezbake_common.Common.{ℤ, pos, ◌≡◌, [], Option, none, some, Bytes, Outcome, ok, throw, arith}
use ezbake_common.OpenSsl.{Bio, Crypto}
use ezbake_common.Security.Base64.{decode}
use ezbake_common.Security.Pbe
use ezbake_common.Security.Pbe.{short_salt}
use ezbake_common.Security.RoundTrip.{encrypt-short_salt}

-- The class that the template is given.
pub record Implementer : Type 0 where
  pub encrypt : Bytes → Bytes → Bytes → ℤ → Outcome Bytes
  pub decrypt : Bytes → Bytes → Bytes → ℤ → Outcome Bytes

abbrev default_salt : Bytes
default_salt = []

abbrev default_passes : ℤ
default_passes = pos 1

abbrev pub get_or {ℓ} : {A : Type ℓ} → Option A → A → A
get_or none a = a
get_or (some b) a = b

-- The arguments that a call leaves out are `none`.
unfoldable pub encrypt_with : Implementer → Bytes → Bytes → Option Bytes → Option ℤ → Outcome Bytes
encrypt_with implementer plaintext password salt iterations =
    implementer.encrypt plaintext password (get_or salt default_salt)
      (get_or iterations default_passes)

unfoldable pub decrypt_with : Implementer → Bytes → Bytes → Option Bytes → Option ℤ → Outcome Bytes
decrypt_with implementer encryptedtext password salt iterations =
    implementer.decrypt encryptedtext password (get_or salt default_salt)
      (get_or iterations default_passes)

module _ (crypto : Crypto) (bio : Bio) where
  abbrev pub pbe_md5_and_des : Implementer
  pbe_md5_and_des = record { encrypt = Pbe.encrypt crypto bio; decrypt = Pbe.decrypt crypto bio }

  -- With the template's default salt PbeMd5AndDesEncryptor refuses every text, and every encrypted
  -- text that base64 decodes.
  encrypt_with-default :
      (plaintext encrypted raw password : Bytes) (iterations : Option ℤ)
      → decode bio encrypted ≡ ok raw
      → (encrypt_with pbe_md5_and_des plaintext password none iterations ≡ throw short_salt)
        × (decrypt_with pbe_md5_and_des encrypted password none iterations ≡ throw short_salt)
  unfolding encrypt_with decrypt_with
  encrypt_with-default plaintext encrypted raw password iterations read =
      encrypt-short_salt crypto bio plaintext password default_salt
        (get_or iterations default_passes) encrypted raw (omega arith) read
