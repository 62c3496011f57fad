-- ===== src/Java/EzProperties/Assignments.antt =====
-- `setProperty` and `getProperty` of EzProperties.java as a caller sees them: encryption does not
-- show.
use ezbake_common.Common.{
  ◌≡◌, ◌⊎◌, refl, sym, ap, ◌∙◌, inl, inr, Bool-cases, Bool, true, false, List, [], ◌∷◌, map, Option,
  none, some,
}
use ezbake_common.Java.Encryption.Laws.{wrapped}
use ezbake_common.Java.Encryption.{TextCryptoProvider, is_encrypted_value, encrypt_property_value}
use ezbake_common.Java.EzProperties.Values.{ReadsBack, get_property-other, get_property-put}
use ezbake_common.Java.EzProperties.{EzProperties, decrypt, property_of, get_property, set_property}
use ezbake_common.Java.Table.Laws.{lookup-put_self, lookup-put_other}
use ezbake_common.Java.Table.{Table, lookup, put, put_all}
use ezbake_common.Java.{Chars, Result, returns, ◌>>=◌}
use ezbake_common.Text.Order.{equal-cases}

-- A call of `setProperty`.
pub record Assignment : Type 0 where
  pub key : Chars
  pub value : Chars
  pub is_encrypted : Bool

unfoldable pub set_all : EzProperties → List Assignment → Result EzProperties
unfolding set_property
set_all c [] = returns c
set_all c (a ∷ assignments) = do
  c' ← set_property c a.key a.value a.is_encrypted
  set_all c' assignments

-- What is stored without encryption is not marked as encrypted.
abbrev pub Unmarked : List Assignment → Type 0
Unmarked [] = Unit
Unmarked (a ∷ assignments) =
    ((a.is_encrypted ≡ true) ⊎ (is_encrypted_value (some a.value) ≡ false)) × Unmarked assignments

abbrev pub pairs : List Assignment → Table
pairs = map (λ a. (a.key, a.value))

-- A value that has been assigned hides what was read before.
abbrev pub hiding : Option Chars → Result (Option Chars) → Result (Option Chars)
hiding none before = before
hiding (some value) before = returns (some value)

-- What is read where the values of a table have been assigned.
abbrev pub read : EzProperties → Table → Chars → Result (Option Chars)
read c table key = hiding (lookup key table) (get_property c key)

read-empty : (c : EzProperties) (key : Chars) → get_property c key ≡ read c [] key
unfolding lookup
read-empty c key = refl

module _ (provider : TextCryptoProvider)
    (works : (value : Chars) → (encrypted : Chars) × (provider.encrypt value ≡ returns encrypted))
    (reads_back : (value : Chars) → ReadsBack provider value) where
  stored :
      (c₀ : EzProperties) (table : Table) (c : EzProperties) (key value text : Chars)
      → c.crypto_provider ≡ some provider
      → ((j : Chars) → get_property c j ≡ read c₀ table j)
      → get_property (record c { table = put key text c.table }) key ≡ returns (some value)
      → (j : Chars)
      → get_property (record c { table = put key text c.table }) j ≡ read c₀ (put key value table) j
  stored c₀ table c key value text set held here j = elim (equal-cases key j) [
    | inl (p, _) ↦ rw (← p) (
        here
        ∙ ap (λ (o : Option Chars). hiding o (get_property c₀ key))
            (sym (lookup-put_self key value table)))
    | inr (n, _) ↦
        get_property-other c provider set key text j n
        ∙ held j
        ∙ ap (λ (o : Option Chars). hiding o (get_property c₀ j))
            (sym (lookup-put_other j key value table n))
  ]

  -- One call stores a text that is read as the value.
  set_property-stored :
      (c : EzProperties) (a : Assignment)
      → c.crypto_provider ≡ some provider
      → (a.is_encrypted ≡ true) ⊎ (is_encrypted_value (some a.value) ≡ false)
      → (text : Chars) × (set_property c a.key a.value a.is_encrypted
          ≡ returns (record c { table = put a.key text c.table }))
        × (get_property (record c { table = put a.key text c.table }) a.key
            ≡ returns (some a.value))
  unfolding set_property encrypt_property_value get_property property_of decrypt
  set_property-stored c a set plain = elim (Bool-cases a.is_encrypted) [
    | inl e ↦
        let (encrypted, done) = works a.value in
        (
          wrapped encrypted,
          rw e (simp (set, done)),
          get_property-put c provider set a.key encrypted ∙ rw (reads_back a.value encrypted done),
        )
    | inr e ↦ elim plain [
      | inl t ↦ absurd (cc)
      | inr u ↦ (a.value, rw e, rw (lookup-put_self a.key a.value c.table) (rw u))
    ]
  ]

  set_all-read :
      (c₀ : EzProperties) (table : Table) (assignments : List Assignment) (c : EzProperties)
      → c.crypto_provider ≡ some provider
      → Unmarked assignments
      → ((j : Chars) → get_property c j ≡ read c₀ table j)
      → (c' : EzProperties) × (set_all c assignments ≡ returns c')
        × ((j : Chars) → get_property c' j ≡ read c₀ (put_all table (pairs assignments)) j)
  unfolding set_all put_all
  set_all-read c₀ table [] c set unmarked held = (c, refl, held)
  set_all-read c₀ table (a ∷ assignments) c set (plain, unmarked) held =
      let (text, done, here) = set_property-stored c a set plain in
      let (c', rest, final) =
        set_all-read c₀ (put a.key a.value table) assignments
          (record c { table = put a.key text c.table }) set unmarked
          (stored c₀ table c a.key a.value text set held here) in
      (c', rw done rest, final)

  -- Let the provider encrypt every value and read it back, and what is set without encryption not be
  -- marked as encrypted. Then any sequence of calls of `setProperty`, encrypting or not, returns, and
  -- `getProperty` of a key returns the value that a plain table holds for it after the same
  -- assignments; of a key that was not assigned it returns what it did before.
  pub set_all-put_all :
      (assignments : List Assignment) (c : EzProperties)
      → c.crypto_provider ≡ some provider
      → Unmarked assignments
      → (c' : EzProperties) × (set_all c assignments ≡ returns c')
        × ((key : Chars)
            → get_property c' key
              ≡ hiding (lookup key (put_all [] (pairs assignments))) (get_property c key))
  set_all-put_all assignments c set unmarked =
      set_all-read c [] assignments c set unmarked (read-empty c)
