-- ===== src/Security/RoundTrip.antt =====
-- What the encryptor of PbeMd5AndDesEncryptor.cpp promises: it decrypts what it encrypted, and when
-- it returns at all.
use ezbake_common.Common.{
  ℤ, pos, ℕ, suc, ◌+◌, ◌^◌, ◌≤◌, ◌<◌, ◌≡◌, ◌≢◌, refl, sym, ap, ◌∙◌, [], none, some, Bytes, ok,
  undefined, throw, >>=-eq_ok, length, arith,
}
use ezbake_common.OpenSsl.{Bio, Crypto}
use ezbake_common.Security.Base64.{decode, decode_data, encode_data, encode_unsigned, to_int}
use ezbake_common.Security.Cipher.{run_cipher-eq_ok, run_cipher-some}
use ezbake_common.Security.Keys.{generate_key-returns, generate_key-short, generate_key_undefined}
use ezbake_common.Security.Padding.{to_int_of_lt, take-length, padded, padded-blocks, unpad-padded}
use ezbake_common.Security.Pbe.{
  generate_data_hash, PbeMd5AndDesKey, algo_block_size, short_salt, generate_key, run_cipher,
  encrypt, decrypt, unpad_int,
}
use ezbake_common.Text

-- Base64 reads back what it wrote, up to a size whose code fits an int.
decode-write :
    (bio : Bio) (d : Bytes) → d ≢ [] → length d ≤ 2 ^ 30 + 8 → decode bio (bio.write d) ≡ ok d
unfolding decode decode_data
decode-write bio d nonempty h =
    let e = to_int_of_lt (length (bio.write d)) (omega (arith, bio.length-write d)) in
    rw (e, decode) (rw (take-length (bio.write d), decode_data) (rw (bio.read-write d nonempty)))

module _ (crypto : Crypto) where
  module _ (bio : Bio) (plaintext password salt : Bytes) (iterations : ℤ)
      (short : length plaintext < 2 ^ 30) where
    -- What `encrypt` and then `decrypt` do with a key that has a schedule.
    module _ (key : PbeMd5AndDesKey crypto)
        (made : generate_key crypto password salt iterations ≡ ok key) (schedule : crypto.Schedule)
        (set : key.schedule ≡ some schedule) where
      abbrev cipher_text : Bytes
      cipher_text = crypto.cbc_encrypt schedule key.ivec (padded plaintext)

      length-cipher_text : length cipher_text ≡ length (padded plaintext)
      length-cipher_text =
          crypto.length-cbc_encrypt schedule key.ivec (padded plaintext) (padded-blocks plaintext).0

      pub encrypt-write :
          encrypt crypto bio plaintext password salt iterations ≡ ok (bio.write cipher_text)
      unfolding encrypt encode_unsigned encode_data
      encrypt-write =
          let (whole, more, bound) = padded-blocks plaintext in
          let int = to_int_of_lt (length (padded plaintext)) (omega arith) in
          let ran =
            run_cipher-some crypto crypto.cbc_encrypt key (padded plaintext)
              (length (padded plaintext)) set refl whole in
          let all : Text.take (length (padded plaintext)) cipher_text ≡ cipher_text =
            rw (← length-cipher_text) (take-length cipher_text) in
          rw (made, encrypt) (rw int (rw ran (rw (all, encode_data))))

      decrypt-write :
          decrypt crypto bio (bio.write cipher_text) password salt iterations ≡ ok plaintext
      unfolding decrypt unpad_int
      decrypt-write =
          let (whole, more, bound) = padded-blocks plaintext in
          let n = length-cipher_text in
          let int : to_int (length cipher_text) ≡ some (length (padded plaintext)) =
            rw n (to_int_of_lt (length (padded plaintext)) (omega arith)) in
          let read =
            decode-write bio cipher_text (λ e. let z = ap length e in omega arith) (omega arith) in
          let ran =
            run_cipher-some crypto crypto.cbc_decrypt key cipher_text (length (padded plaintext))
              set (sym n) whole in
          let back = crypto.cbc_decrypt-cbc_encrypt schedule key.ivec (padded plaintext) whole in
          rw (read, decrypt) (rw (made, int) (rw ran (rw back (unpad-padded plaintext))))

    -- What `encrypt` returns of a text below 2^30 bytes, `decrypt` turns back into the text, with
    -- the same password, salt and count of iterations.
    pub decrypt-encrypt :
        (encrypted : Bytes)
        → encrypt crypto bio plaintext password salt iterations ≡ ok encrypted
        → decrypt crypto bio encrypted password salt iterations ≡ ok plaintext
    unfolding encrypt
    decrypt-encrypt encrypted h =
        let (_, _, bound) = padded-blocks plaintext in
        let int = to_int_of_lt (length (padded plaintext)) (omega arith) in
        let (key, made, rest) = >>=-eq_ok (generate_key crypto password salt iterations) _ h in
        let (out, ran, _) =
          >>=-eq_ok
            (run_cipher crypto crypto.cbc_encrypt key (padded plaintext)
              (to_int (length (padded plaintext))))
            _ rest in
        let (schedule, set, _) =
          run_cipher-eq_ok crypto crypto.cbc_encrypt key (padded plaintext) out (rw int at ran) in
        let written = encrypt-write key made schedule set in
        let same : ok (bio.write (cipher_text key made schedule set)) ≡ ok encrypted =
          sym written ∙ h in
        let q : bio.write (cipher_text key made schedule set) ≡ encrypted = cc in
        rw (← q) (decrypt-write key made schedule set)

  module _ (bio : Bio) (plaintext password salt : Bytes) where
    -- With a salt of 8 bytes or more, a positive count of iterations, a text below 2^30 bytes, a
    -- digest that does not fail and a derived key that is not weak, `encrypt` returns.
    pub encrypt-returns :
        (n : ℕ)
        → algo_block_size ≤ length salt
        → length plaintext < 2 ^ 30
        → ((d : Bytes) → crypto.md5 d ≢ none)
        → ((hash : Bytes)
            → generate_data_hash crypto password salt (pos (suc n)) ≡ ok hash
            → crypto.set_key_checked (crypto.set_odd_parity (Text.take algo_block_size hash))
              ≢ none)
        → (encrypted : Bytes) × (encrypt crypto bio plaintext password salt (pos (suc n))
            ≡ ok encrypted)
    encrypt-returns n long short total strong =
        let (key, schedule, made, set) =
          generate_key-returns crypto password salt n long total strong in
        (
          bio.write
              (cipher_text bio plaintext password salt (pos (suc n)) short key made schedule set),
          encrypt-write bio plaintext password salt (pos (suc n)) short key made schedule set,
        )

    -- With a salt below 8 bytes `encrypt` throws, and so does `decrypt` of every text that is
    -- base64.
    pub encrypt-short_salt :
        (iterations : ℤ) (encrypted raw : Bytes)
        → length salt < algo_block_size
        → decode bio encrypted ≡ ok raw
        → (encrypt crypto bio plaintext password salt iterations ≡ throw short_salt)
          × (decrypt crypto bio encrypted password salt iterations ≡ throw short_salt)
    unfolding encrypt decrypt
    encrypt-short_salt iterations encrypted raw h read =
        let made = generate_key-short crypto password salt iterations h in
        (rw (made, encrypt), rw (read, decrypt) (rw made))

    -- With a count of iterations of 0 or below, a salt of 8 bytes or more and a digest that does not
    -- fail, `encrypt` is undefined, and so is `decrypt` of every text that is base64.
    pub encrypt_undefined :
        (iterations : ℤ) (encrypted raw : Bytes)
        → ((n : ℕ) → iterations ≢ pos (suc n))
        → algo_block_size ≤ length salt
        → ((d : Bytes) → crypto.md5 d ≢ none)
        → decode bio encrypted ≡ ok raw
        → (encrypt crypto bio plaintext password salt iterations ≡ undefined)
          × (decrypt crypto bio encrypted password salt iterations ≡ undefined)
    unfolding encrypt decrypt
    encrypt_undefined iterations encrypted raw other long total read =
        let broken = generate_key_undefined crypto password salt iterations other long total in
        (rw (broken, encrypt), rw (read, decrypt) (rw broken))
