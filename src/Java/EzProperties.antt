-- ===== src/Java/EzProperties.antt =====
-- src/main/java/ezbake/common/properties/EzProperties.java, with the functions on properties of
-- PropertiesEncryptionUtil.java.
pub mod Merging
pub mod Values
pub mod Collisions
pub mod Loading
pub mod Assignments
pub mod Paths
use ezbake_common.Common.{
  ℕ, not, Bool, true, false, List, [], ◌∷◌, ◌++◌, map, Option, none, some, codes, if◌then◌else◌,
}
use ezbake_common.Java.Encryption.{
  TextCryptoProvider, is_encrypted_value, encrypt_property_value, decrypt_property_value,
}
use ezbake_common.Java.OpenShift.{Environment, in_openshift_container, get_repo_dir, separator}
use ezbake_common.Java.Resources.{ClassPath, get_resource}
use ezbake_common.Java.Strings.{trim, starts_with}
use ezbake_common.Java.Table.{Table, lookup, put, put_all, keys}
use ezbake_common.Java.{
  Chars, Result, returns, throws, ◌>>=◌, null_pointer, illegal_state, illegal_argument,
  duplicate_property, Thrown,
}
use ezbake_common.Text

-- `decrypt`, with the object's `cryptoProvider`. No encrypted value is null.
unfoldable pub decrypt : Option TextCryptoProvider → Option Chars → Result (Option Chars)
unfolding is_encrypted_value decrypt_property_value
decrypt crypto_provider none = returns none
decrypt crypto_provider (some value) =
    if not (is_encrypted_value (some value)) then returns (some value) else elim crypto_provider [
      | none ↦ throws illegal_state
      | some provider ↦ do text ← decrypt_property_value value provider; returns (some text)
    ]

-- An object among a java.util.Properties and its defaults, the defaults of those, and so on: its
-- own entries, and where it is an EzProperties its `cryptoProvider`.
pub record Layer : Type 0 where
  pub table : Table
  pub class_provider : Option (Option TextCryptoProvider)

-- A reference to a java.util.Properties, which is null without a layer.
abbrev pub Properties : Type 0
Properties = List Layer

-- A java.util.Properties without defaults.
abbrev pub plain : Table → Properties
plain table = record { table = table; class_provider = none } ∷ []

-- `getProperty(key)`, as the class of the object overrides it.
unfoldable pub property_of : Properties → Chars → Result (Option Chars)
unfolding lookup decrypt
property_of [] key = returns none
property_of (layer ∷ defaults) key =
    let inherited = property_of defaults key in
    (do
      value ← elim (lookup key layer.table) [ none ↦ inherited | some value ↦ returns (some value) ]
      elim layer.class_provider [
        | none ↦ returns value
        | some crypto_provider ↦ decrypt crypto_provider value
      ])

-- The keys of `stringPropertyNames()`, those of the defaults too, up to their order and
-- repetitions.
unfoldable pub string_property_names : Properties → List Chars
string_property_names [] = []
string_property_names (layer ∷ defaults) = keys layer.table ++ string_property_names defaults

-- What `putAll` copies of a map: its own entries.
unfoldable pub own_entries : Properties → Result Table
own_entries [] = throws null_pointer
own_entries (layer ∷ defaults) = returns layer.table

-- `isEncryptedProperty` and `decryptProperty` of PropertiesEncryptionUtil.
unfoldable pub is_encrypted_property : Properties → Chars → Result Bool
unfolding property_of is_encrypted_value
is_encrypted_property props key = do
  value ← property_of props key
  returns (is_encrypted_value value)

unfoldable pub decrypt_property : Properties → Chars → TextCryptoProvider → Result (Option Chars)
unfolding is_encrypted_property decrypt_property_value
decrypt_property props key provider = do
  encrypted ← is_encrypted_property props key
  if not encrypted then returns none else (do
    value ← property_of props key
    elim value [
      | none ↦ throws null_pointer
      | some value ↦ do text ← decrypt_property_value value provider; returns (some text)
    ])

pub record EzProperties : Type 0 where
  pub table : Table
  pub defaults : Properties
  pub crypto_provider : Option TextCryptoProvider

-- The object as a java.util.Properties.
abbrev pub layers : EzProperties → Properties
layers c = record { table = c.table; class_provider = some c.crypto_provider } ∷ c.defaults

unfoldable pub init : Properties → Bool → Result EzProperties
unfolding own_entries put_all
init props copy_properties =
    if not copy_properties
    then returns (record { table = []; defaults = props; crypto_provider = none })
    else (do
      entries ← own_entries props
      returns (record { table = put_all [] entries; defaults = []; crypto_provider = none }))

unfoldable pub set_text_crypto_provider : EzProperties → Option TextCryptoProvider → EzProperties
set_text_crypto_provider c provider = record c { crypto_provider = provider }

unfoldable pub get_property : EzProperties → Chars → Result (Option Chars)
unfolding property_of
get_property c key = property_of (layers c) key

-- `getProperty(key, defaultValue)`: that of java.util.Properties calls `getProperty(key)`, which is
-- overridden, and takes the default where the result is null.
unfoldable pub get_property_or : EzProperties → Chars → Option Chars → Result (Option Chars)
unfolding get_property decrypt
get_property_or c key default_value = do
  value ← get_property c key
  decrypt c.crypto_provider (elim value [ none ↦ default_value | some value ↦ some value ])

unfoldable pub set_property : EzProperties → Chars → Chars → Bool → Result EzProperties
unfolding encrypt_property_value put
set_property c key value is_encrypted =
    if is_encrypted
    then elim c.crypto_provider [
      | none ↦ throws illegal_state
      | some provider ↦ do
        value ← encrypt_property_value value provider
        returns (record c { table = put key value c.table })
    ]
    else returns (record c { table = put key value c.table })

-- `lower` is `toLowerCase()`, which depends on the locale.
unfoldable pub get_boolean : (Chars → Chars) → EzProperties → Chars → Bool → Result Bool
unfolding get_property trim Text.equal
get_boolean lower c property_name default_value = do
  value ← get_property c property_name
  elim value [
    | none ↦ returns default_value
    | some value ↦
        let value' = lower (trim value) in
        returns (
          if Text.equal value' (codes "true")
          then true
          else if Text.equal value' (codes "false")
          then false
          else default_value)
  ]

-- getDouble, getFloat, getInteger, getLong and getShort, with the conversion of NumberUtils to the
-- type.
unfoldable pub get_number {ℓ} :
    {A : Type ℓ} → (Option Chars → A → A) → EzProperties → Chars → A → Result A
unfolding get_property
get_number to_number c property_name default_value = do
  value ← get_property c property_name
  returns (to_number value default_value)

-- A `File` is absolute where its path starts with the separator.
unfoldable pub get_path : Environment → EzProperties → Chars → Option Chars → Result (Option Chars)
unfolding get_property in_openshift_container get_repo_dir starts_with
get_path env c property_name default_value = do
  value ← get_property c property_name
  elim value [
    | none ↦ returns default_value
    | some path ↦
        if not (in_openshift_container env)
        then returns (some path)
        else if starts_with path separator
        then returns (some path)
        else (do dir ← get_repo_dir env; returns (some (dir ++ separator ++ path)))
  ]
