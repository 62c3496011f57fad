-- ===== src/Tests/Merges.antt =====
-- EzProperties that merge others, and load files.
use mathlib.Core.List.{Nodup-nil, Nodup-cons, not-mem-nil, mem-cons_self}
use ezbake_common.Common.{
  ◌≡◌, ◌≢◌, ◌↔◌, ◌⊎◌, inr, refl, true, false, List, [], ◌∷◌, ◌++◌, map, none, some, Mem, Nodup,
  codes,
}
use ezbake_common.Java.Encryption.{no_op}
use ezbake_common.Java.EzProperties.Collisions.{Merged, merge_properties-cases}
use ezbake_common.Java.EzProperties.Loading.{
  Accepted, Distinct, with_tables, load_files-loads, load_files-cases,
}
use ezbake_common.Java.EzProperties.Merging.{merge_properties, load_files}
use ezbake_common.Java.EzProperties.{
  EzProperties, layers, plain, get_property, get_property_or, set_property, get_boolean, get_path,
  init, decrypt_property, string_property_names,
}
use ezbake_common.Java.Sets
use ezbake_common.Java.Sets.{list_sets}
use ezbake_common.Java.Strings
use ezbake_common.Java.Table.{Table, lookup, put, put_all, keys}
use ezbake_common.Java.{Chars, Result, returns, throws, duplicate_property, Thrown}
use ezbake_common.Tests.Settings.{settings}

program : Unit {0}
unfolding get_property get_property_or set_property decrypt_property merge_properties load_files
    init no_op Strings.trim Strings.starts_with Strings.ends_with lookup put put_all get_boolean
    get_path string_property_names Sets.intersection
program = tt

-- The names of the defaults of both objects collide.
merge_run :
    (merge_properties list_sets settings (plain ((codes "b", codes "3") ∷ [])) false
      ≡ throws (duplicate_property (codes "b" ∷ [])))
    × (merge_properties list_sets settings (plain ((codes "a", codes "3") ∷ [])) true
        ≡ returns (record settings { table = (codes "a", codes "3") ∷ [] }))
unfolding program
merge_run = (refl, refl)

one_key-Nodup : (k v : Chars) → Nodup (keys ((k, v) ∷ []))
one_key-Nodup k v = Nodup-cons.1 (not-mem-nil, Nodup-nil)

abbrev other_file : Table
other_file = (codes "c", codes "3") ∷ []

merge_properties-cases_example :
    ((collisions : List Chars) × (merge_properties list_sets settings (plain other_file) false
        ≡ throws (duplicate_property collisions))
      × (collisions ≢ [])
      × ((k : Chars)
          → Mem k collisions ↔ (
              Mem k (string_property_names (layers settings))
              × Mem k (string_property_names (plain other_file)))))
    ⊎ ((c' : EzProperties) × (merge_properties list_sets settings (plain other_file) false
          ≡ returns c')
        × Merged settings other_file c'
        × ((k : Chars)
            → Mem k (string_property_names (layers settings))
            → ¬ Mem k (string_property_names (plain other_file))))
merge_properties-cases_example =
    merge_properties-cases list_sets settings (record { table = other_file; class_provider = none })
      [] (one_key-Nodup (codes "c") (codes "3"))

abbrev files : List (Result Table)
files = returns other_file ∷ []

files-Distinct : Distinct files
files-Distinct = (one_key-Nodup (codes "c") (codes "3"), tt)

load_files_run : (load_files list_sets settings false files).1 ≡ returns tt
unfolding program
load_files_run = refl

load_files-loads_example :
    lookup (codes "c") (load_files list_sets settings false files).0.table ≡ some (codes "3")
unfolding lookup
load_files-loads_example =
    load_files-loads list_sets files settings (codes "c") (codes "3") files-Distinct
      (inr (load_files_run, (other_file, mem-cons_self, refl)))

load_files-cases_example :
    (before : List Table) × (after : List (Result Table)) × (files ≡ map returns before ++ after)
    × ((load_files list_sets settings false files).0 ≡ with_tables settings before)
    × Accepted list_sets settings false before
    × (((after ≡ []) × ((load_files list_sets settings false files).1 ≡ returns tt))
        ⊎ ((e : Thrown) × (failed : Result Table) × (rest : List (Result Table)) × (after
              ≡ failed ∷ rest)
            × ((load_files list_sets settings false files).1 ≡ throws e)
            × ((failed ≡ throws e)
                ⊎ ((pro : Table) × (failed ≡ returns pro)
                    × (merge_properties list_sets (with_tables settings before) (plain pro) false
                        ≡ throws e)))))
load_files-cases_example = load_files-cases list_sets files settings false
