-- ===== src/Java/EzProperties/Merging.antt =====
-- How EzProperties.java takes other properties in: getCollisions, mergeProperties and what loads
-- files.
use ezbake_common.Common.{◌↔◌, Mem, not, Bool, List, [], ◌∷◌, Option, none, some, if◌then◌else◌}
use ezbake_common.Java.EzProperties.{
  EzProperties, Properties, layers, plain, own_entries, string_property_names,
}
use ezbake_common.Java.Resources.{ClassPath, get_resource}
use ezbake_common.Java.Table.{Table, put_all}
use ezbake_common.Java.{
  Chars, Result, returns, throws, ◌>>=◌, null_pointer, illegal_argument, duplicate_property,
}

-- `Sets.intersection` of Guava: the members of both sets. A set is a list, up to order and
-- repetitions.
pub record Sets : Type 0 where
  pub intersection : List Chars → List Chars → List Chars
  pub mem-intersection :
      {key : Chars} {a b : List Chars} → Mem key (intersection a b) ↔ (Mem key a × Mem key b)

-- `putAll(toMerge)`
unfoldable pub put_entries : EzProperties → Properties → Result EzProperties
unfolding own_entries put_all
put_entries c to_merge = do
  entries ← own_entries to_merge
  returns (record c { table = put_all c.table entries })

module _ (sets : Sets) where
  unfoldable pub get_collisions : EzProperties → Properties → Result (List Chars)
  unfolding string_property_names
  get_collisions c [] = throws null_pointer
  get_collisions c (layer ∷ defaults) = returns (
      sets.intersection (string_property_names (layers c))
        (string_property_names (layer ∷ defaults)))

  unfoldable pub merge_properties : EzProperties → Properties → Bool → Result EzProperties
  unfolding get_collisions put_entries
  merge_properties c to_merge should_override =
      if not should_override
      then (do
        collisions ← get_collisions c to_merge
        elim collisions [
          | [] ↦ put_entries c to_merge
          | key ∷ rest ↦ throws (duplicate_property (key ∷ rest))
        ])
      else put_entries c to_merge

  -- The loop of `loadFromDirectory`, on what reading each file gives. The files before one that
  -- throws have been merged.
  unfoldable pub load_files :
      EzProperties → Bool → List (Result Table) → EzProperties × Result (Unit {0})
  unfolding merge_properties
  load_files c should_override [] = (c, returns tt)
  load_files c should_override (throws e ∷ files) = (c, throws e)
  load_files c should_override (returns pro ∷ files) =
      elim (merge_properties c (plain pro) should_override) [
        | throws e ↦ (c, throws e)
        | returns d ↦ load_files d should_override files
      ]

  -- A directory that is null or none is `none`; a stream of its files that match may throw.
  unfoldable pub load_from_directory :
      EzProperties → Option (Result (List (Result Table))) → Bool → EzProperties × Result (Unit {0})
  unfolding load_files
  load_from_directory c none should_override = (c, throws illegal_argument)
  load_from_directory c (some (throws e)) should_override = (c, throws e)
  load_from_directory c (some (returns files)) should_override = load_files c should_override files

  -- A resource is what reading its properties gives.
  unfoldable pub load_from_class_path :
      ClassPath (Result Table) → EzProperties → Option Chars → Bool → Result EzProperties
  unfolding get_resource merge_properties
  load_from_class_path path c resource should_override = elim (get_resource path resource) [
    | none ↦ throws illegal_argument
    | some url ↦ do to_merge ← url; merge_properties c (plain to_merge) should_override
  ]
