-- ===== src/Security/Contract.antt =====
-- What TextCryptoProvider.h asks of a provider, for SharedSecretTextCryptoProvider: a message is
-- read back.
use ezbake_common.Common.{
  ◌^◌, ◌<◌, ◌≡◌, ◌≢◌, none, Bytes, Outcome, ok, throw, undefined, length, arith, codes,
}
use ezbake_common.OpenSsl.{Bio, Crypto}
use ezbake_common.Text
use ezbake_common.Security.Pbe
use ezbake_common.Security.Providers.{guarded, shared_secret, salt, default_iterations}
use ezbake_common.Security.RoundTrip.{decrypt-encrypt, encrypt-returns}

guarded-eq_ok :
    (message : Bytes) (o : Outcome Bytes) {a : Bytes} → guarded message o ≡ ok a → o ≡ ok a
unfolding guarded
guarded-eq_ok message (ok b) h = h
guarded-eq_ok message (throw e) h = cc
guarded-eq_ok message undefined h = cc

module _ (crypto : Crypto) (bio : Bio) (password : Bytes) where
  pub shared_secret-reads_back :
      (message encrypted : Bytes)
      → length message < 2 ^ 30
      → (shared_secret crypto bio password).encrypt message ≡ ok encrypted
      → (shared_secret crypto bio password).decrypt encrypted ≡ ok message
  unfolding shared_secret guarded
  shared_secret-reads_back message encrypted short h =
      let e =
        guarded-eq_ok (codes "Error in encrypting string: ")
          (Pbe.encrypt crypto bio message password salt default_iterations) h in
      rw (
        decrypt-encrypt crypto bio message password salt default_iterations short encrypted e,
        guarded,
      )

  -- Where the digest does not fail and the key of the secret is not weak, a message below 2^30
  -- bytes is encrypted.
  shared_secret-returns :
      (message : Bytes)
      → length message < 2 ^ 30
      → ((d : Bytes) → crypto.md5 d ≢ none)
      → ((hash : Bytes)
          → Pbe.generate_data_hash crypto password salt default_iterations ≡ ok hash
          → crypto.set_key_checked (crypto.set_odd_parity (Text.take 8 hash)) ≢ none)
      → (encrypted : Bytes) × ((shared_secret crypto bio password).encrypt message ≡ ok encrypted)
  unfolding shared_secret guarded
  shared_secret-returns message short total strong =
      let (encrypted, e) =
        encrypt-returns crypto bio message password salt 999 (omega arith) short total strong in
      (encrypted, rw (e, guarded))
