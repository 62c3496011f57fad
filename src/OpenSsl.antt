-- ===== src/OpenSsl.antt =====
-- What src/main/cpp/security uses of OpenSSL, which is not part of the repository: the base64 BIO,
-- the MD5 digest, and DES in CBC mode. A failing call is `none`.
pub mod Identity
use ezbake_common.Common.{
  ℕ, ◌+◌, ◌*◌, ◌/◌, ◌%◌, ◌≤◌, ◌≡◌, ◌≢◌, List, [], Option, some, Bytes, length,
}

-- A base64 BIO without newlines in front of a memory BIO.
pub record Bio : Type 0 where
  -- The memory after `BIO_write` and `BIO_flush`.
  pub write : Bytes → Bytes
  -- The bytes that `BIO_read` stores of a memory, given the size of the array; `none` where it
  -- returns -1.
  pub read : Bytes → ℕ → Option Bytes
  -- Three bytes become four characters, and reading them back gives the bytes.
  pub length-write : (d : Bytes) → length (write d) ≤ 4 * ((length d + 2) / 3)
  pub read-write : (d : Bytes) → d ≢ [] → read (write d) (length (write d)) ≡ some d

pub record Crypto : Type 1 where
  pub Schedule : Type 0
  -- `EVP_DigestInit_ex`, `EVP_DigestUpdate` on the parts of a text, `EVP_DigestFinal_ex`.
  pub md5 : Bytes → Option Bytes
  pub set_odd_parity : Bytes → Bytes
  -- `DES_set_key_checked`, which leaves the schedule as it is for a weak key.
  pub set_key_checked : Bytes → Option Schedule
  -- `DES_ncbc_encrypt` with a schedule and an initial vector, in both directions.
  pub cbc_encrypt : Schedule → Bytes → Bytes → Bytes
  pub cbc_decrypt : Schedule → Bytes → Bytes → Bytes
  -- On whole blocks both directions keep the length, and decryption inverts encryption.
  pub length-cbc_encrypt :
      (s : Schedule) (ivec d : Bytes) → length d % 8 ≡ 0 → length (cbc_encrypt s ivec d) ≡ length d
  pub length-cbc_decrypt :
      (s : Schedule) (ivec d : Bytes) → length d % 8 ≡ 0 → length (cbc_decrypt s ivec d) ≡ length d
  pub cbc_decrypt-cbc_encrypt :
      (s : Schedule) (ivec d : Bytes)
      → length d % 8 ≡ 0
      → cbc_decrypt s ivec (cbc_encrypt s ivec d) ≡ d
