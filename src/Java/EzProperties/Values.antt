-- ===== src/Java/EzProperties/Values.antt =====
-- Encrypted values in EzProperties.java: written by `setProperty`, read by `getProperty` and by
-- `decryptProperty` of PropertiesEncryptionUtil.java.
use ezbake_common.Common.{ℕ, ◌≤◌, ◌≡◌, ◌≢◌, refl, ap, ◌∙◌, true, false, ◌∷◌, Option, none, some}
use ezbake_common.Java.Encryption.Laws.{
  wrapped, wrapped-IsEncrypted, get_inner_value-wrapped, get_inner_value-shifted,
  IsEncrypted_of_trim, trim-space,
}
use ezbake_common.Java.Encryption.{
  TextCryptoProvider, is_encrypted_value, encrypt_property_value, decrypt_property_value,
}
use ezbake_common.Java.EzProperties.{
  EzProperties, layers, decrypt, property_of, get_property, get_property_or, set_property,
  decrypt_property, is_encrypted_property,
}
use ezbake_common.Java.Table.Laws.{lookup-put_self, lookup-put_other}
use ezbake_common.Java.Table.{lookup, put}
use ezbake_common.Java.{Chars, returns, ◌>>=◌, >>=-eq_returns}

-- The provider reads back what it encrypts the value to.
abbrev pub ReadsBack : TextCryptoProvider → Chars → Type 0
ReadsBack provider value =
    (encrypted : Chars)
    → provider.encrypt value ≡ returns encrypted
    → provider.decrypt encrypted ≡ returns value

pub decrypt-wrapped :
    (provider : TextCryptoProvider) (text : Chars)
    → decrypt (some provider) (some (wrapped text))
      ≡ (provider.decrypt text >>= λ value. returns (some value))
unfolding decrypt decrypt_property_value
decrypt-wrapped provider text = rw (wrapped-IsEncrypted text, get_inner_value-wrapped text) refl

module _ (c : EzProperties) (provider : TextCryptoProvider)
    (set : c.crypto_provider ≡ some provider) where
  -- What an encrypting `setProperty` leaves behind.
  pub set_property-eq_returns :
      (key value : Chars) {c' : EzProperties}
      → set_property c key value true ≡ returns c'
      → (encrypted : Chars) × (provider.encrypt value ≡ returns encrypted)
        × (c' ≡ record c { table = put key (wrapped encrypted) c.table })
  unfolding set_property encrypt_property_value
  set_property-eq_returns key value h =
      let (marked, e, stored) =
        >>=-eq_returns (encrypt_property_value value provider)
          (λ marked. returns (record c { table = put key marked c.table })) (rw (set) at h) in
      let (encrypted, e', m) =
        >>=-eq_returns (provider.encrypt value) (λ encrypted. returns (wrapped encrypted)) e in
      let n : wrapped encrypted ≡ marked = cc in (encrypted, e', rw n cc)

  pub get_property-other :
      (key marked j : Chars)
      → key ≢ j
      → get_property (record c { table = put key marked c.table }) j ≡ get_property c j
  unfolding get_property property_of
  get_property-other key marked j other = rw (lookup-put_other j key marked c.table other) refl

  pub get_property-put :
      (key encrypted : Chars)
      → get_property (record c { table = put key (wrapped encrypted) c.table }) key
        ≡ (provider.decrypt encrypted >>= λ value. returns (some value))
  unfolding get_property property_of
  get_property-put key encrypted =
      rw (lookup-put_self key (wrapped encrypted) c.table, set) (decrypt-wrapped provider encrypted)

  -- Let the provider read back what it encrypts the value to. What `setProperty` encrypts,
  -- `getProperty` of its key returns; of another key it returns what it did before.
  get_property-set_property :
      (key value j : Chars) (c' : EzProperties)
      → ReadsBack provider value
      → key ≢ j
      → set_property c key value true ≡ returns c'
      → (get_property c' key ≡ returns (some value)) × (get_property c' j ≡ get_property c j)
  get_property-set_property key value j c' reads other done =
      let (encrypted, e, q) = set_property-eq_returns key value done in
      (
        rw (q, get_property-put key encrypted, reads encrypted e) refl,
        rw q (get_property-other key (wrapped encrypted) j other),
      )

  get_property-value :
      (key value : Chars) (c' : EzProperties)
      → ReadsBack provider value
      → set_property c key value true ≡ returns c'
      → (get_property c' key ≡ returns (some value)) × (c'.crypto_provider ≡ some provider)
  get_property-value key value c' reads done =
      let (encrypted, e, q) = set_property-eq_returns key value done in
      (
        rw (q, get_property-put key encrypted, reads encrypted e) refl,
        ap (λ (x : EzProperties). x.crypto_provider) q ∙ set,
      )

  -- Let the provider read back what it encrypts a value to, and let that value be a text between
  -- the marks. Where `setProperty` encrypted it, `getProperty` of the key returns the value, and
  -- `getProperty` with a default decrypts the text in it once more.
  pub get_property_or-set_property :
      (key text : Chars) (default_value : Option Chars) (c' : EzProperties)
      → ReadsBack provider (wrapped text)
      → set_property c key (wrapped text) true ≡ returns c'
      → (get_property c' key ≡ returns (some (wrapped text)))
        × (get_property_or c' key default_value
            ≡ (provider.decrypt text >>= λ value. returns (some value)))
  unfolding get_property_or
  get_property_or-set_property key text default_value c' reads done =
      let (read, same) = get_property-value key (wrapped text) c' reads done in
      (read, rw read (rw same (decrypt-wrapped provider text)))

  -- Let the provider read back what it encrypts the value to, and the value not be marked as
  -- encrypted itself. `isEncryptedProperty` denies that the property is encrypted, and
  -- `decryptProperty` returns null for it, since they read it by `getProperty`, which has decrypted
  -- it.
  pub decrypt_property-set_property :
      (key value : Chars) (c' : EzProperties)
      → ReadsBack provider value
      → is_encrypted_value (some value) ≡ false
      → set_property c key value true ≡ returns c'
      → (is_encrypted_property (layers c') key ≡ returns false)
        × (decrypt_property (layers c') key provider ≡ returns none)
  unfolding get_property is_encrypted_property decrypt_property
  decrypt_property-set_property key value c' reads unmarked done =
      let read : property_of (layers c') key ≡ returns (some value) =
        (get_property-value key value c' reads done).0 in
      let denied : is_encrypted_property (layers c') key ≡ returns false =
        rw read (rw unmarked refl) in
      (denied, rw denied refl)

  -- An encrypted value with a unit up to the space in front is taken for encrypted, but what is
  -- decrypted is the text with the last unit of the mark in front.
  pub get_property-shifted :
      (key text : Chars) (space : ℕ)
      → space ≤ b' '
      → lookup key c.table ≡ some (space ∷ wrapped text)
      → get_property c key ≡ (provider.decrypt (b'(' ∷ text) >>= λ value. returns (some value))
  unfolding get_property property_of decrypt decrypt_property_value
  get_property-shifted key text space low found =
      let marked = IsEncrypted_of_trim (space ∷ wrapped text) text (trim-space space text low) in
      rw (found, set, marked, get_inner_value-shifted space text) refl
