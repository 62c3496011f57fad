-- ===== src/Java/SharedSecret.antt =====
-- src/main/java/ezbake/common/security/SharedSecretTextCryptoProvider.java. Jasypt's
-- StandardPBEStringEncryptor is a parameter: what it does is a function of its configuration.
pub mod Shared
use ezbake_common.Common.{Bool, true, false, Option, codes}
use ezbake_common.Java.Encryption.{TextCryptoProvider}
use ezbake_common.Java.{
  Chars, Result, returns, ◌>>=◌, Thrown, catching, security, encryption_initialization,
  encryption_operation_not_possible,
}

-- What the constructor sets.
pub record Configuration : Type 0 where
  pub algorithm : Chars
  pub salt_charset : Chars
  pub salt : Chars
  pub password : Chars

-- `Charset.defaultCharset().name()`, `setPassword`, which may refuse its argument, and the two
-- operations of a configured encryptor.
pub record Jasypt : Type 0 where
  pub default_charset : Chars
  pub set_password : Option Chars → Result Chars
  pub encrypt : Configuration → Chars → Result Chars
  pub decrypt : Configuration → Chars → Result Chars

abbrev pub salt : Chars
salt = codes "bouncycastle"

unfoldable pub init : Jasypt → Option Chars → Result Configuration
init jasypt secret = do
  password ← jasypt.set_password secret
  returns (record {
    algorithm = codes "PBEWithMD5AndDES";
    salt_charset = jasypt.default_charset;
    salt = salt;
    password = password;
  })

-- What the catch blocks of both methods catch.
unfoldable pub caught : Thrown → Bool
caught encryption_initialization = true
caught encryption_operation_not_possible = true
caught e = false

unfoldable pub provider : Jasypt → Configuration → TextCryptoProvider
unfolding caught catching
provider jasypt encryptor = record {
  encrypt = λ message. catching caught security (jasypt.encrypt encryptor message);
  decrypt = λ message. catching caught security (jasypt.decrypt encryptor message);
}
