-- ===== src/Java/EzProperties/Loading.antt =====
-- `loadFromDirectory` of EzProperties.java.
use mathlib.Core.List.{not-mem-nil, eq-or-mem_of_mem-cons, mem-append_left, foldl}
use mathlib.Core.Logic.Or
use ezbake_common.Common.{
  ◌≡◌, ◌⊎◌, inl, inr, refl, sym, ap, ◌∙◌, Bool, true, false, List, [], ◌∷◌, ◌++◌, map, none, some,
  Mem, Nodup, List-cases,
}
use ezbake_common.Java.EzProperties.Collisions.{merge_properties-cases}
use ezbake_common.Java.EzProperties.Merging.{
  merge_properties, load_files, put_entries, get_collisions, Sets,
}
use ezbake_common.Java.EzProperties.{EzProperties, layers, plain, string_property_names}
use ezbake_common.Java.Table.Laws.{lookup-none, lookup-some}
use ezbake_common.Java.Table.{Table, lookup, put_all, keys}
use ezbake_common.Java.{Chars, Result, returns, throws, Thrown, Result-cases}

-- Each file has one entry for each key.
abbrev pub Distinct : List (Result Table) → Type 0
Distinct [] = Unit
Distinct (throws e ∷ files) = Distinct files
Distinct (returns t ∷ files) = Nodup (keys t) × Distinct files

-- The object with some tables added, in their order.
abbrev pub with_tables : EzProperties → List Table → EzProperties
with_tables c tables = record c { table = foldl put_all c.table tables }

module _ (sets : Sets) where
  -- A merge without overriding keeps every value.
  merge_properties-keeps :
      (c : EzProperties) (pro : Table) (c' : EzProperties) (key value : Chars)
      → Nodup (keys pro)
      → merge_properties sets c (plain pro) false ≡ returns c'
      → lookup key c.table ≡ some value
      → lookup key c'.table ≡ some value
  unfolding string_property_names
  merge_properties-keeps c pro c' key value distinct done held =
      elim (merge_properties-cases sets c (record { table = pro; class_provider = none }) []
        distinct) [
          | inl (collisions, thrown, _, _) ↦ let clash = sym done ∙ thrown in cc
          | inr (d, returned, merged, apart) ↦
              let same : d ≡ c' = (let q = sym returned ∙ done in cc) in
              let ours =
                mem-append_left (string_property_names c.defaults)
                  (lookup-some key value c.table held) in
              let absent = lookup-none key pro (λ m. apart key ours (mem-append_left [] m)) in
              rw (← same) (rw (merged.entries key, absent) held)
        ]

  merge_properties-adds :
      (c : EzProperties) (pro : Table) (c' : EzProperties) (key value : Chars)
      → Nodup (keys pro)
      → merge_properties sets c (plain pro) false ≡ returns c'
      → lookup key pro ≡ some value
      → lookup key c'.table ≡ some value
  merge_properties-adds c pro c' key value distinct done held =
      elim (merge_properties-cases sets c (record { table = pro; class_provider = none }) []
        distinct) [
          | inl (collisions, thrown, _, _) ↦ let clash = sym done ∙ thrown in cc
          | inr (d, returned, merged, apart) ↦
              let same : d ≡ c' = (let q = sym returned ∙ done in cc) in
              rw (← same) (rw (merged.entries key, held) refl)
        ]

  load_files-keeps :
      (files : List (Result Table)) (c : EzProperties) (key value : Chars)
      → Distinct files
      → lookup key c.table ≡ some value
      → lookup key (load_files sets c false files).0.table ≡ some value
  unfolding load_files
  load_files-keeps [] c key value distinct held = held
  load_files-keeps (throws e ∷ files) c key value distinct held = held
  load_files-keeps (returns pro ∷ files) c key value distinct held =
      elim (Result-cases (merge_properties sets c (plain pro) false)) [
        | inr (e, h) ↦ rw (h, load_files) held
        | inl (d, h) ↦
            rw (h, load_files)
              (load_files-keeps files d key value distinct.1
                (merge_properties-keeps c pro d key value distinct.0 h held))
      ]

  load_files-adds :
      (files : List (Result Table)) (c : EzProperties) (key value : Chars)
      → Distinct files
      → (load_files sets c false files).1 ≡ returns tt
      → (t : Table) → Mem (returns t) files
      → lookup key t ≡ some value
      → lookup key (load_files sets c false files).0.table ≡ some value
  unfolding load_files
  load_files-adds [] c key value distinct done t m held = absurd (not-mem-nil m)
  load_files-adds (throws e ∷ files) c key value distinct done t m held = cc
  load_files-adds (returns pro ∷ files) c key value distinct done t m held =
      elim (Result-cases (merge_properties sets c (plain pro) false)) [
        | inr (e, h) ↦ let n = rw (h, load_files) at done in cc
        | inl (d, h) ↦
            let done' = rw (h, load_files) at done in
            rw (h, load_files)
              (Or.elim (hlevel) (eq-or-mem_of_mem-cons m)
                (λ p.
                  let same : t ≡ pro = cc in
                  load_files-keeps files d key value distinct.1
                    (merge_properties-adds c pro d key value distinct.0 h (rw same at held)))
                (λ n. load_files-adds files d key value distinct.1 done' t n held))
      ]

  -- Let each file have one entry for each key. Without overriding `loadFromDirectory` leaves every
  -- value that the object had in its own entries, whether it returns or throws, and where it
  -- returns, every value of every file is loaded.
  pub load_files-loads :
      (files : List (Result Table)) (c : EzProperties) (key value : Chars)
      → Distinct files
      → (lookup key c.table ≡ some value)
        ⊎ (((load_files sets c false files).1 ≡ returns tt)
            × ((t : Table) × Mem (returns t) files × (lookup key t ≡ some value)))
      → lookup key (load_files sets c false files).0.table ≡ some value
  load_files-loads files c key value distinct (inl held) =
      load_files-keeps files c key value distinct held
  load_files-loads files c key value distinct (inr (done, (t, m, held))) =
      load_files-adds files c key value distinct done t m held

  put_entries-plain :
      (c : EzProperties) (pro : Table) (o : Bool) {d : EzProperties}
      → merge_properties sets c (plain pro) o ≡ returns d
      → d ≡ with_tables c (pro ∷ [])
  unfolding merge_properties put_entries get_collisions
  put_entries-plain c pro true h = cc
  put_entries-plain c pro false h =
      elim (List-cases (
        sets.intersection (string_property_names (layers c)) (string_property_names (plain pro)))) [
          | inl e ↦ let h' = rw (e, merge_properties) at h in cc
          | inr (k, ks, e) ↦ let h' = rw (e, merge_properties) at h in cc
        ]

  -- `mergeProperties` takes each of the tables after those before it.
  abbrev pub Accepted : EzProperties → Bool → List Table → Type 0
  Accepted c o [] = Unit
  Accepted c o (pro ∷ tables) =
      (merge_properties sets c (plain pro) o ≡ returns (with_tables c (pro ∷ [])))
      × Accepted (with_tables c (pro ∷ [])) o tables

  -- `loadFromDirectory` stops at the first file that cannot be read, or whose properties
  -- `mergeProperties` refuses, and throws what these throw; `mergeProperties` has taken each of
  -- the files before it in turn, and they stay. Where there is no such file it returns, with all files added.
  pub load_files-cases :
      (files : List (Result Table)) (c : EzProperties) (should_override : Bool)
      → (before : List Table) × (after : List (Result Table)) × (files
          ≡ map returns before ++ after)
        × ((load_files sets c should_override files).0 ≡ with_tables c before)
        × Accepted c should_override before
        × (((after ≡ []) × ((load_files sets c should_override files).1 ≡ returns tt))
            ⊎ ((e : Thrown) × (failed : Result Table) × (rest : List (Result Table)) × (after
                  ≡ failed ∷ rest)
                × ((load_files sets c should_override files).1 ≡ throws e)
                × ((failed ≡ throws e)
                    ⊎ ((pro : Table) × (failed ≡ returns pro)
                        × (merge_properties sets (with_tables c before) (plain pro) should_override
                            ≡ throws e)))))
  unfolding load_files
  load_files-cases [] c o = ([], [], refl, refl, tt, inl (refl, refl))
  load_files-cases (throws e ∷ files) c o =
      ([], throws e ∷ files, refl, refl, tt, inr (e, throws e, files, refl, refl, inl refl))
  load_files-cases (returns pro ∷ files) c o =
      elim (Result-cases (merge_properties sets c (plain pro) o)) [
        | inr (e, h) ↦ (
          [],
          returns pro ∷ files,
          refl,
          rw (h, load_files) refl,
          tt,
          inr (e, returns pro, files, refl, rw (h, load_files) refl, inr (pro, refl, h)),
        )
        | inl (d, h) ↦
            let next = with_tables c (pro ∷ []) in
            let h' : merge_properties sets c (plain pro) o ≡ returns next =
              h ∙ ap returns (put_entries-plain c pro o h) in
            let (before, after, split, state, taken, end) = load_files-cases files next o in
            (
              pro ∷ before,
              after,
              rw split refl,
              rw (h', load_files) state,
              (h', taken),
              rw (h', load_files) end,
            )
      ]
