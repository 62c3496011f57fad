-- ===== src/Java/SharedSecret/Shared.antt =====
-- Providers of SharedSecretTextCryptoProvider.java that were given the same secret.
use ezbake_common.Common.{◌≡◌, ◌⊎◌, inl, refl, ap, sym, ◌∙◌, true, Option, some}
use ezbake_common.Java.EzProperties.Values.{ReadsBack, decrypt-wrapped, set_property-eq_returns}
use ezbake_common.Java.EzProperties.{EzProperties, property_of, get_property, set_property}
use ezbake_common.Java.Table.Laws.{lookup-put_self}
use ezbake_common.Java.Table.{lookup}
use ezbake_common.Java.Encryption.Laws.{wrapped}
use ezbake_common.Java.SharedSecret.{Jasypt, Configuration, init, caught, provider}
use ezbake_common.Java.{
  Chars, returns, Throws, security, catching, catching-eq_returns, catching-Throws, Throws-mono,
}

-- An encryptor reads back what one with the same configuration wrote.
abbrev pub IsInverse : Jasypt → Type 0
IsInverse jasypt =
    (encryptor : Configuration) (message text : Chars)
    → jasypt.encrypt encryptor message ≡ returns text
    → jasypt.decrypt encryptor text ≡ returns message

provider-ReadsBack :
    (jasypt : Jasypt) (encryptor : Configuration) (value : Chars)
    → IsInverse jasypt
    → ReadsBack (provider jasypt encryptor) value
unfolding provider catching
provider-ReadsBack jasypt encryptor value inverse text done =
    let e = catching-eq_returns caught security (jasypt.encrypt encryptor value) done in
    rw (inverse encryptor value text e)

-- Let Jasypt read back what an encryptor with the same configuration wrote. What one object has
-- encrypted with a provider of a secret, any object with the same own entry for the key and a
-- provider that was constructed with that secret returns.
pub get_property-set_property_shared :
    (jasypt : Jasypt) (secret : Option Chars) (encryptor other : Configuration)
    (c c' d : EzProperties) (key value : Chars)
    → IsInverse jasypt
    → init jasypt secret ≡ returns encryptor
    → init jasypt secret ≡ returns other
    → c.crypto_provider ≡ some (provider jasypt encryptor)
    → d.crypto_provider ≡ some (provider jasypt other)
    → lookup key d.table ≡ lookup key c'.table
    → set_property c key value true ≡ returns c'
    → get_property d key ≡ returns (some value)
unfolding get_property property_of
get_property-set_property_shared jasypt secret encryptor other c c' d key value inverse made made'
      ours theirs copied done =
    let same : encryptor ≡ other = (let q = sym made ∙ made' in cc) in
    let p = provider jasypt encryptor in
    let (encrypted, e, q) = set_property-eq_returns c p ours key value done in
    let theirs' : d.crypto_provider ≡ some p = rw same theirs in
    let stored = ap (λ (x : EzProperties). lookup key x.table) q in
    rw (copied, stored, lookup-put_self key (wrapped encrypted) c.table, theirs')
      (rw (decrypt-wrapped p encrypted)
        (rw (provider-ReadsBack jasypt encryptor value inverse encrypted e)))

-- Let Jasypt throw only the two exceptions that the code catches. Then both methods of a provider
-- throw nothing but a SecurityException.
provider-security :
    (jasypt : Jasypt) (encryptor : Configuration) (message : Chars)
    → Throws (λ e. caught e ≡ true) (jasypt.encrypt encryptor message)
    → Throws (λ e. caught e ≡ true) (jasypt.decrypt encryptor message)
    → Throws (λ e. e ≡ security) ((provider jasypt encryptor).encrypt message)
      × Throws (λ e. e ≡ security) ((provider jasypt encryptor).decrypt message)
unfolding provider
provider-security jasypt encryptor message h g = (
  catching-Throws (λ e. e ≡ security) caught security (jasypt.encrypt encryptor message)
      (Throws-mono (λ e. caught e ≡ true) (λ e. (caught e ≡ true) ⊎ (e ≡ security)) _ (λ e t. inl t)
        h)
      refl,
  catching-Throws (λ e. e ≡ security) caught security (jasypt.decrypt encryptor message)
      (Throws-mono (λ e. caught e ≡ true) (λ e. (caught e ≡ true) ⊎ (e ≡ security)) _ (λ e t. inl t)
        g)
      refl,
)
