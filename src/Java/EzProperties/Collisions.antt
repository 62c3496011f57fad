-- ===== src/Java/EzProperties/Collisions.antt =====
-- `getCollisions` and `mergeProperties` of EzProperties.java.
use mathlib.Core.List.{not-mem-nil}
use ezbake_common.Common.{
  ◌≡◌, ◌≢◌, ◌↔◌, ◌⊎◌, inl, inr, refl, false, List, [], ◌∷◌, Mem, Nodup, List-cases,
}
use ezbake_common.Java.EzProperties.Merging.{Sets, get_collisions, put_entries, merge_properties}
use ezbake_common.Java.EzProperties.{EzProperties, Properties, Layer, layers, string_property_names}
use ezbake_common.Java.Table.Laws.{or_else, lookup-put_all}
use ezbake_common.Java.Table.{Table, lookup, put_all, keys}
use ezbake_common.Java.{Chars, returns, throws, duplicate_property}

-- What a merge that collides with nothing, or overrides, leaves.
pub record Merged (c : EzProperties) (table : Table) (c' : EzProperties) : Type 0 where
  pub entries :
      (key : Chars) → lookup key c'.table ≡ or_else (lookup key table) (lookup key c.table)
  pub defaults : c'.defaults ≡ c.defaults
  pub crypto_provider : c'.crypto_provider ≡ c.crypto_provider

put_entries-Merged :
    (c : EzProperties) (layer : Layer) (inherited : Properties)
    → Nodup (keys layer.table)
    → (c' : EzProperties) × (put_entries c (layer ∷ inherited) ≡ returns c')
      × Merged c layer.table c'
unfolding put_entries
put_entries-Merged c layer inherited distinct = (
  record c { table = put_all c.table layer.table },
  refl,
  record {
    entries = λ key. lookup-put_all key c.table layer.table distinct;
    defaults = refl;
    crypto_provider = refl;
  },
)

-- Let the own entries of `toMerge` have one entry for each key. Without overriding,
-- `mergeProperties` throws where some key is among the names of both, those of their defaults too,
-- and the exception has exactly these keys; else no key is among both, and it returns the object
-- with the own entries of `toMerge` added.
pub merge_properties-cases :
    (sets : Sets) (c : EzProperties) (layer : Layer) (inherited : Properties)
    → Nodup (keys layer.table)
    → ((collisions : List Chars) × (merge_properties sets c (layer ∷ inherited) false
          ≡ throws (duplicate_property collisions))
        × (collisions ≢ [])
        × ((key : Chars)
            → Mem key collisions ↔ (
                Mem key (string_property_names (layers c))
                × Mem key (string_property_names (layer ∷ inherited)))))
      ⊎ ((c' : EzProperties) × (merge_properties sets c (layer ∷ inherited) false ≡ returns c')
          × Merged c layer.table c'
          × ((key : Chars)
              → Mem key (string_property_names (layers c))
              → ¬ Mem key (string_property_names (layer ∷ inherited))))
unfolding merge_properties get_collisions
merge_properties-cases sets c layer inherited distinct =
    let ours = string_property_names (layers c) in
    let theirs = string_property_names (layer ∷ inherited) in
    elim (List-cases (sets.intersection ours theirs)) [
      | inr (k, ks, e) ↦ inl (k ∷ ks, rw e refl, (λ n. cc), λ key. rw (← e) sets.mem-intersection)
      | inl e ↦
          let (c', done, merged) = put_entries-Merged c layer inherited distinct in
          inr (
            c',
            rw e done,
            merged,
            λ key x y. let m = sets.mem-intersection.1 (x, y) in not-mem-nil (rw e at m),
          )
    ]
