-- ===== src/OpenShift/Paths.antt =====
-- The directories of OpenShiftUtil.cpp.
use ezbake_common.Common.{
  ℕ, suc, ◌≡◌, ◌≢◌, ◌⊎◌, refl, ap, ◌∙◌, inl, inr, true, false, [], ◌∷◌, ◌++◌, some, Bytes, codes,
  ok, length, ◌==◌, arith, Bool-cases, Option-cases, ==_iff,
}
use ezbake_common.OpenShift.{
  Environment, file_separator, openshift_repo_dir, find_last, ends_in_separator, env_string,
  get_repo_dir, get_configuration_dir,
}
use mathlib.Core.List.{append_assoc}

-- A text that ends in the separator.
abbrev separated : Bytes → Bytes
separated s = s ++ file_separator ∷ []

ends_in_separator-cons :
    (c d : ℕ) (s : Bytes) → ends_in_separator (c ∷ d ∷ s) ≡ ends_in_separator (d ∷ s)
unfolding ends_in_separator find_last
ends_in_separator-cons c d s = elim (Option-cases (find_last file_separator (d ∷ s))) [
  | inr (i, e) ↦ rw (e, ends_in_separator, find_last) (ground arith)
  | inl e ↦ elim (Bool-cases (c == file_separator)) [
    | inl f ↦ rw (e, f, ends_in_separator, find_last) (ground arith)
    | inr f ↦ rw (e, f, ends_in_separator, find_last) (ground arith)
  ]
]

-- The comparison of two positions decides whether a text ends in the separator.
ends_in_separator-cases :
    (c : ℕ) (s : Bytes)
    → ((ends_in_separator (c ∷ s) ≡ true) × ((base : Bytes) × (c ∷ s ≡ separated base)))
      ⊎ ((ends_in_separator (c ∷ s) ≡ false) × ((base : Bytes) → c ∷ s ≢ separated base))
unfolding ends_in_separator find_last
ends_in_separator-cases c [] = elim (Bool-cases (c == file_separator)) [
  | inl e ↦ inl (
    rw (e, ends_in_separator, find_last) (ground arith),
    ([], ap (λ (x : ℕ). x ∷ []) ((==_iff c file_separator).0 e)),
  )
  | inr e ↦
      inr (rw (e, ends_in_separator, find_last) (ground arith), λ base h. absurd (other base e h))
]
  where
    other : (base : Bytes) → (c == file_separator) ≡ false → c ∷ [] ≢ separated base
    other [] e h = let q : c ≡ file_separator = cc in ground arith
    other (x ∷ []) e h = let z = ap length h in omega arith
    other (x ∷ y ∷ base) e h = let z = ap length h in omega arith
ends_in_separator-cases c (d ∷ s) =
    let same = ends_in_separator-cons c d s in
    elim (ends_in_separator-cases d s) [
      | inl (e, (base, f)) ↦ inl (same ∙ e, (c ∷ base, ap (◌∷◌ c) f))
      | inr (e, other) ↦ inr (same ∙ e, λ base h. absurd (shorter base other h))
    ]
  where
    shorter : (base : Bytes) → ((b : Bytes) → d ∷ s ≢ separated b) → c ∷ d ∷ s ≢ separated base
    shorter [] other h = let z = ap length h in omega arith
    shorter (x ∷ base) other h = let q : d ∷ s ≡ separated base = cc in other base q

env_string-some :
    (env : Environment) (name : Bytes) {s : Bytes} → env name ≡ some s → env_string env name ≡ ok s
unfolding env_string
env_string-some env name h = rw (h, env_string)

-- Where the variable is set and not empty, `getConfigurationDir` returns it with "/config" behind,
-- without a second separator where it ends in one.
get_configuration_dir-cases :
    (env : Environment) (c : ℕ) (s : Bytes)
    → env openshift_repo_dir ≡ some (c ∷ s)
    → (base : Bytes) × (get_configuration_dir env ≡ ok (base ++ codes "/config"))
      × ((c ∷ s ≡ separated base) ⊎ ((c ∷ s ≡ base) × ((b : Bytes) → c ∷ s ≢ separated b)))
unfolding get_configuration_dir get_repo_dir
get_configuration_dir-cases env c s h =
    let full : (suc (length s) == 0) ≡ false = ground arith in
    elim (ends_in_separator-cases c s) [
      | inl (e, (base, f)) ↦ (
        base,
        rw (env_string-some env openshift_repo_dir h, get_configuration_dir)
            (rw full (
              rw e (
                ap (λ (x : Bytes). ok (x ++ codes "config")) f
                ∙ ap ok (append_assoc base (file_separator ∷ []) (codes "config"))))),
        inl f,
      )
      | inr (e, other) ↦ (
        c ∷ s,
        rw (env_string-some env openshift_repo_dir h, get_configuration_dir) (rw full (rw e)),
        inr (refl, other),
      )
    ]
