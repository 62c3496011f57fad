-- ===== src/Security/Pbe.antt =====
-- src/main/cpp/security/PbeMd5AndDesEncryptor.cpp: the encryptor over OpenSSL and Base64Util. A
-- byte is a number below 256; a `char` is signed.
use ezbake_common.Common.{
  ℤ, pos, negsuc, true, false, ℕ, zero, suc, ◌+◌, ◌-◌, ◌%◌, ◌^◌, [], ◌∷◌, ◌++◌, Option, none, some,
  Bytes, codes, Outcome, ok, throw, undefined, ◌>>=◌, Exception, string_encryptor, length,
  get_elem?, ltb, leb, ◌==◌, if◌then◌else◌,
}
use ezbake_common.OpenSsl.{Bio, Crypto}
use ezbake_common.Security.Base64.{encode_unsigned, decode, to_int}
use ezbake_common.Text

-- `MD5_DIGEST_LENGTH / 2`
abbrev pub algo_block_size : ℕ
algo_block_size = 8

abbrev pub short_salt : Exception
short_salt = record {
  kind = string_encryptor;
  what = codes "Provided salt is of insufficient length";
}

abbrev pub digest_error : Exception
digest_error = record { kind = string_encryptor; what = codes "Error in generating digest" }

-- `std::string(n, c)`
unfoldable pub filled : ℕ → ℕ → Bytes
filled zero c = []
filled (suc n) c = c ∷ filled n c

-- The value of a `char`: how many bytes of `n` are left without that many at the end. A negative
-- value, and one above `n`, leave the whole string, as `substr` is given a count that is too large.
unfoldable pub without_padding : ℕ → ℕ → ℕ
without_padding n c = if ltb c 128 then (if leb c n then n - c else n) else n + (256 - c)

-- `decrypted.substr(0, n - decrypted[n - 1])`; there is no last byte of nothing.
unfoldable pub unpad : Bytes → ℕ → Outcome Bytes
unfolding without_padding Text.take
unpad decrypted zero = undefined
unpad decrypted (suc n) = elim (get_elem? decrypted n) [
  | none ↦ undefined
  | some c ↦ ok (Text.take (without_padding (suc n) c) decrypted)
]

unfoldable pub unpad_int : Bytes → Option ℕ → Outcome Bytes
unfolding unpad
unpad_int decrypted none = undefined
unpad_int decrypted (some n) = unpad decrypted n

module _ (crypto : Crypto) where
  pub record PbeMd5AndDesKey : Type 0 where
    pub schedule : Option crypto.Schedule
    pub ivec : Bytes

  -- One digest of a text, or the exception.
  unfoldable pub digest : Bytes → Outcome Bytes
  digest d = elim (crypto.md5 d) [ none ↦ throw digest_error | some r ↦ ok r ]

  -- `while (--iterations != 0)`, where `iterations` is that far above the least long: the decrement
  -- of the least long overflows, and 0 is 2^63 above it.
  unfoldable pub rehash_from : ℕ → Bytes → Outcome Bytes
  unfolding digest
  rehash_from zero result = undefined
  rehash_from (suc iterations) result = elim (iterations == 2 ^ 63) [
    | true ↦ ok result
    | false ↦ do next ← digest result; rehash_from iterations next
  ]

  unfoldable pub rehash_loop : ℤ → Bytes → Outcome Bytes
  unfolding rehash_from
  rehash_loop (pos n) result = rehash_from (2 ^ 63 + n) result
  rehash_loop (negsuc m) result = rehash_from (2 ^ 63 - suc m) result

  unfoldable pub generate_data_hash : Bytes → Bytes → ℤ → Outcome Bytes
  unfolding digest rehash_loop Text.take
  generate_data_hash bytes salt iterations =
      if ltb (length salt) algo_block_size then throw short_salt else (do
        result ← digest (bytes ++ Text.take algo_block_size salt)
        rehash_loop iterations result)

  unfoldable pub generate_key : Bytes → Bytes → ℤ → Outcome PbeMd5AndDesKey
  unfolding generate_data_hash Text.take Text.drop
  generate_key password salt iterations = do
    key_hash ← generate_data_hash password salt iterations
    ok (record {
      schedule =
          crypto.set_key_checked (crypto.set_odd_parity (Text.take algo_block_size key_hash));
      ivec = Text.take algo_block_size (Text.drop algo_block_size key_hash);
    })

  -- The output array of `n` bytes after DES_ncbc_encrypt. It is undefined with a schedule that was
  -- never set, for a negative `n`, and where the last block reaches beyond the arrays.
  unfoldable pub run_cipher :
      (crypto.Schedule → Bytes → Bytes → Bytes) → PbeMd5AndDesKey → Bytes → Option ℕ → Outcome Bytes
  unfolding Text.take
  run_cipher cipher key d none = undefined
  run_cipher cipher key d (some n) =
      if n % algo_block_size == 0
      then elim key.schedule [
        | none ↦ undefined
        | some schedule ↦ ok (cipher schedule key.ivec (Text.take n d))
      ]
      else undefined

  unfoldable pub encrypt : Bio → Bytes → Bytes → Bytes → ℤ → Outcome Bytes
  unfolding filled generate_key run_cipher to_int encode_unsigned
  encrypt bio plaintext password salt iterations =
      let padding = algo_block_size - length plaintext % algo_block_size in
      let to_encrypt = plaintext ++ filled padding padding in
      do
        key ← generate_key password salt iterations
        encrypted ← run_cipher crypto.cbc_encrypt key to_encrypt (to_int (length to_encrypt))
        ok (encode_unsigned bio encrypted (to_int (length to_encrypt)))

  unfoldable pub decrypt : Bio → Bytes → Bytes → Bytes → ℤ → Outcome Bytes
  unfolding generate_key run_cipher to_int decode unpad_int
  decrypt bio encryptedtext password salt iterations = do
    decoded ← decode bio encryptedtext
    key ← generate_key password salt iterations
    decrypted ← run_cipher crypto.cbc_decrypt key decoded (to_int (length decoded))
    unpad_int decrypted (to_int (length decoded))
