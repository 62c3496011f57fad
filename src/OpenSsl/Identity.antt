-- ===== src/OpenSsl/Identity.antt =====
-- A BIO and a cipher that change nothing, and so behave as the interfaces ask: the assumptions can
-- be met, and the tests run on them.
use ezbake_common.Common.{refl, some, Bytes, arith}
use ezbake_common.OpenSsl.{Bio, Crypto}

abbrev pub identity_bio : Bio
identity_bio = record {
  write = λ d. d;
  read = λ m n. some m;
  length-write = λ d. omega arith;
  read-write = λ d n. refl;
}

abbrev pub identity_crypto : Crypto
identity_crypto = record {
  Schedule = Bytes;
  md5 = λ d. some d;
  set_odd_parity = λ k. k;
  set_key_checked = λ k. some k;
  cbc_encrypt = λ s ivec d. d;
  cbc_decrypt = λ s ivec d. d;
  length-cbc_encrypt = λ s ivec d h. refl;
  length-cbc_decrypt = λ s ivec d h. refl;
  cbc_decrypt-cbc_encrypt = λ s ivec d h. refl;
}
