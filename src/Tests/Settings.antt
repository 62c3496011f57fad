-- ===== src/Tests/Settings.antt =====
-- EzProperties with the provider that changes nothing, as in
-- src/test/java/ezbake/common/properties/PropertiesEncryptionUtilTest.java.
use ezbake_common.Common.{
  ℕ, ◌≡◌, refl, inl, inr, List, true, false, [], ◌∷◌, none, some, codes, arith,
}
use ezbake_common.Java.Encryption.Laws.{wrapped}
use ezbake_common.Java.Encryption.{no_op, is_encrypted_value}
use ezbake_common.Java.EzProperties.Assignments.{
  Assignment, Unmarked, set_all, hiding, set_all-put_all,
}
use ezbake_common.Java.EzProperties.Merging.{merge_properties, load_files}
use ezbake_common.Java.EzProperties.Values.{
  get_property_or-set_property, decrypt_property-set_property, get_property-shifted, ReadsBack,
}
use ezbake_common.Java.EzProperties.{
  EzProperties, layers, plain, get_property, get_property_or, set_property, get_boolean, get_path,
  init, decrypt_property, is_encrypted_property, string_property_names,
}
use ezbake_common.Java.Resources.{get_resource}
use ezbake_common.Java.Sets
use ezbake_common.Java.Sets.{list_sets}
use ezbake_common.Java.Strings
use ezbake_common.Java.Table.{lookup, put, put_all}
use ezbake_common.Java.{Chars, returns, throws, illegal_state}

abbrev pub key : Chars
key = codes "key"

abbrev pub text : Chars
text = codes "text"

-- A value of another key, and one in the defaults.
abbrev pub settings : EzProperties
settings = record {
  table = (codes "a", codes "1") ∷ [];
  defaults = plain ((codes "b", codes "2") ∷ []);
  crypto_provider = some no_op;
}

abbrev with_secret : Chars → EzProperties
with_secret value = record settings { table = (codes "a", codes "1") ∷ (key, wrapped value) ∷ [] }

program : Unit {0}
unfolding get_property get_property_or set_property decrypt_property merge_properties load_files
    init no_op Strings.trim Strings.starts_with Strings.ends_with lookup put put_all get_boolean
    get_path string_property_names Sets.intersection
program = tt

set_run : set_property settings key text true ≡ returns (with_secret text)
unfolding program
set_run = refl

set_marked_run :
    set_property settings key (wrapped text) true ≡ returns (with_secret (wrapped text))
unfolding program
set_marked_run = refl

get_run :
    (get_property (with_secret text) key ≡ returns (some text))
    × (get_property (with_secret text) (codes "b") ≡ returns (some (codes "2")))
    × (get_property (with_secret text) (codes "c") ≡ returns none)
    × (get_property (record (with_secret text) { crypto_provider = none }) key
        ≡ throws illegal_state)
unfolding program
get_run = (refl, refl, refl, refl)

-- Copying leaves the defaults out.
abbrev pub settings_copy : EzProperties
settings_copy = record {
  table = (codes "a", codes "1") ∷ [];
  defaults = [];
  crypto_provider = none;
}

pub init_run :
    init (layers settings) true
    ≡ returns
        (record { table = (codes "a", codes "1") ∷ []; defaults = []; crypto_provider = none })
unfolding program
init_run = refl

-- What Guava's class loaders find is not used.
resource_run :
    get_resource {A = ℕ}
      (record { context = λ _. some 1; runtime = λ _. none; own = λ _. none })
      (some (codes "a.properties"))
    ≡ none
unfolding get_resource
resource_run = refl

no_op-ReadsBack : (value : Chars) → ReadsBack no_op value
unfolding no_op
no_op-ReadsBack value e h = cc

get_property_or-set_property_example :
    (get_property (with_secret (wrapped text)) key ≡ returns (some (wrapped text)))
    × (get_property_or (with_secret (wrapped text)) key none ≡ returns (some text))
unfolding no_op
get_property_or-set_property_example =
    get_property_or-set_property settings no_op refl key text none (with_secret (wrapped text))
      (no_op-ReadsBack (wrapped text)) set_marked_run

decrypt_property-set_property_example :
    (is_encrypted_property (layers (with_secret text)) key ≡ returns false)
    × (decrypt_property (layers (with_secret text)) key no_op ≡ returns none)
unfolding program
decrypt_property-set_property_example =
    decrypt_property-set_property settings no_op refl key text (with_secret text)
      (no_op-ReadsBack text) refl set_run

-- A value with a space before the mark.
abbrev shifted : EzProperties
shifted = record settings { table = (key, b' ' ∷ wrapped text) ∷ [] }

get_property-shifted_example : get_property shifted key ≡ returns (some (codes "(text"))
unfolding program
get_property-shifted_example =
    get_property-shifted shifted no_op refl key text b' ' (omega arith) refl

get_a_run : get_property settings (codes "a") ≡ returns (some (codes "1"))
unfolding program
get_a_run = refl

-- One key twice, with encryption and without, and one that the defaults have.
abbrev assignments : List Assignment
assignments =
    record { key = key; value = codes "1"; is_encrypted = false }
    ∷ record { key = key; value = text; is_encrypted = true }
    ∷ record { key = codes "b"; value = codes "3"; is_encrypted = false }
    ∷ []

no_op-works : (value : Chars) → (encrypted : Chars) × (no_op.encrypt value ≡ returns encrypted)
unfolding no_op
no_op-works value = (value, refl)

assignments-Unmarked : Unmarked assignments
unfolding is_encrypted_value
assignments-Unmarked = (inr refl, (inl refl, (inr refl, tt)))

set_all-put_all_example :
    (c' : EzProperties) × (set_all settings assignments ≡ returns c')
    × ((k : Chars)
        → get_property c' k
          ≡ hiding (lookup k ((key, text) ∷ (codes "b", codes "3") ∷ [])) (get_property settings k))
unfolding put put_all
set_all-put_all_example =
    set_all-put_all no_op no_op-works no_op-ReadsBack assignments settings refl assignments-Unmarked
