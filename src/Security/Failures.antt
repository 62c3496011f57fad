-- ===== src/Security/Failures.antt =====
-- What `encrypt` of SharedSecretTextCryptoProvider.cpp does with a message, on every branch.
use ezbake_common.Common.{
  ℤ, ◌^◌, ◌<◌, ◌≡◌, ◌⊎◌, inl, inr, ◌++◌, Option, none, Bytes, ok, throw, undefined, length, arith,
  codes, Option-cases,
}
use ezbake_common.OpenSsl.{Bio, Crypto}
use ezbake_common.Security.Cipher.{run_cipher_undefined}
use ezbake_common.Security.Contract.{shared_secret-reads_back}
use ezbake_common.Security.Keys.{generate_data_hash-cases}
use ezbake_common.Security.Padding.{to_int_of_lt, padded, padded-blocks}
use ezbake_common.Security.Pbe
use ezbake_common.Security.Pbe.{
  PbeMd5AndDesKey, algo_block_size, digest_error, generate_data_hash, generate_key,
}
use ezbake_common.Security.Providers.{
  guarded, security_exception, shared_secret, salt, default_iterations,
}
use ezbake_common.Security.RoundTrip.{encrypt-write}
use ezbake_common.Text

module _ (crypto : Crypto) where
  -- The key that OpenSSL checks.
  abbrev pub checked : Bytes → Option crypto.Schedule
  checked hash = crypto.set_key_checked (crypto.set_odd_parity (Text.take algo_block_size hash))

  -- A weak key is found out nowhere, and its schedule is then used.
  encrypt_undefined_of_weak :
      (bio : Bio) (plaintext password salt hash : Bytes) (iterations : ℤ)
      → length plaintext < 2 ^ 30
      → generate_data_hash crypto password salt iterations ≡ ok hash
      → checked hash ≡ none
      → Pbe.encrypt crypto bio plaintext password salt iterations ≡ undefined
  unfolding Pbe.encrypt generate_key
  encrypt_undefined_of_weak bio plaintext password salt hash iterations short hashed weak =
      let (whole, more, bound) = padded-blocks plaintext in
      let int = to_int_of_lt (length (padded plaintext)) (omega arith) in
      let key : PbeMd5AndDesKey crypto = record {
        schedule = checked hash;
        ivec = Text.take algo_block_size (Text.drop algo_block_size hash);
      } in
      let broken =
        run_cipher_undefined crypto crypto.cbc_encrypt key (padded plaintext)
          (length (padded plaintext)) (inl weak) in
      let made : generate_key crypto password salt iterations ≡ ok key =
        rw (hashed, generate_key) in
      rw (made, Pbe.encrypt) (rw int (rw broken))

  module _ (bio : Bio) (password : Bytes) where
    -- With a message below 2^30 bytes one of three things happens. `encrypt` of the provider returns
    -- a text, which `decrypt` turns back into the message; or some digest fails, and it throws a
    -- SecurityException that names the error; or the key that is derived of the secret is weak, and
    -- it is undefined.
    pub shared_secret-cases :
        (message : Bytes)
        → length message < 2 ^ 30
        → ((encrypted : Bytes) × ((shared_secret crypto bio password).encrypt message
              ≡ ok encrypted)
            × ((shared_secret crypto bio password).decrypt encrypted ≡ ok message))
          ⊎ ((d : Bytes) × (crypto.md5 d ≡ none)
              × ((shared_secret crypto bio password).encrypt message
                  ≡ throw (
                      security_exception (
                        codes "Error in encrypting string: "
                        ++ codes "Error in generating digest"))))
          ⊎ ((hash : Bytes) × (generate_data_hash crypto password salt default_iterations ≡ ok hash)
              × (checked hash ≡ none)
              × ((shared_secret crypto bio password).encrypt message ≡ undefined))
    unfolding shared_secret guarded generate_key Pbe.encrypt
    shared_secret-cases message short =
        elim (generate_data_hash-cases crypto password salt 999 (omega arith)) [
          | inr (d, failed, thrown) ↦
              let made : generate_key crypto password salt default_iterations ≡ throw digest_error =
                rw (thrown, generate_key) in
              inr (inl (d, failed, rw (made, Pbe.encrypt)))
          | inl (hash, hashed) ↦ elim (Option-cases (checked hash)) [
            | inl weak ↦
                let broken =
                  encrypt_undefined_of_weak bio message password salt hash default_iterations short
                    hashed weak in
                inr (inr (hash, hashed, weak, rw (broken, guarded)))
            | inr (schedule, set) ↦
                let key : PbeMd5AndDesKey crypto = record {
                  schedule = checked hash;
                  ivec = Text.take algo_block_size (Text.drop algo_block_size hash);
                } in
                let made : generate_key crypto password salt default_iterations ≡ ok key =
                  rw (hashed, generate_key) in
                let text = bio.write (crypto.cbc_encrypt schedule key.ivec (padded message)) in
                let done : (shared_secret crypto bio password).encrypt message ≡ ok text = rw (
                  encrypt-write crypto bio message password salt default_iterations short key made
                      schedule set,
                  guarded,
                ) in
                inl
                  (text, done, shared_secret-reads_back crypto bio password message text short done)
          ]
        ]
