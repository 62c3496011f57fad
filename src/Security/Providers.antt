-- ===== src/Security/Providers.antt =====
-- src/main/cpp/include/ezbake/common/security/TextCryptoProvider.h and its implementations
-- NoOpTextCryptoProvider.h and SharedSecretTextCryptoProvider.h with its .cpp.
use ezbake_common.Common.{ℤ, ◌++◌, Bytes, codes, Outcome, ok, throw, undefined, Exception, security}
use ezbake_common.OpenSsl.{Bio, Crypto}
use ezbake_common.Security.Pbe

pub record TextCryptoProvider : Type 0 where
  pub encrypt : Bytes → Outcome Bytes
  pub decrypt : Bytes → Outcome Bytes

-- SecurityException's constructor.
unfoldable pub security_exception : Bytes → Exception
security_exception what = record { kind = security; what = codes "SecurityException: " ++ what }

abbrev pub salt : Bytes
salt = codes "bouncycastle"

abbrev pub default_iterations : ℤ
default_iterations = ℤ.pos 1000

-- `catch (const std::exception&)`, which is the base of every exception that is modelled.
unfoldable pub guarded : Bytes → Outcome Bytes → Outcome Bytes
unfolding security_exception
guarded message (ok a) = ok a
guarded message (throw e) = throw (security_exception (message ++ e.what))
guarded message undefined = undefined

unfoldable pub no_op : TextCryptoProvider
no_op = record { encrypt = λ message. ok message; decrypt = λ message. ok message }

module _ (crypto : Crypto) (bio : Bio) where
  unfoldable pub shared_secret : Bytes → TextCryptoProvider
  unfolding guarded Pbe.encrypt Pbe.decrypt
  shared_secret password = record {
    encrypt = λ message.
        guarded (codes "Error in encrypting string: ")
          (Pbe.encrypt crypto bio message password salt default_iterations);
    decrypt = λ message.
        guarded (codes "Error in decrypting string: ")
          (Pbe.decrypt crypto bio message password salt default_iterations);
  }
