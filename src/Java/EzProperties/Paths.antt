-- ===== src/Java/EzProperties/Paths.antt =====
-- `getPath` of EzProperties.java beside `getRepoPath` of OpenShiftUtil.cpp, its C++ counterpart.
use mathlib.Core.List.{append_assoc}
use ezbake_common.Common.{
  ◌≡◌, ◌≢◌, inl, inr, refl, sym, ap, Option-cases, true, false, [], ◌∷◌, ◌++◌, Option, some, length,
  ok, arith, ◌==◌, Bool-cases,
}
use ezbake_common.Java.OpenShift as Containers
use ezbake_common.Java.EzProperties.{EzProperties, get_path, get_property}
use ezbake_common.Java.OpenShift.{Environment, in_openshift_container, separator}
use ezbake_common.Java.Strings.{starts_with}
use ezbake_common.Java.{Chars, returns, check_not_null}
use ezbake_common.OpenShift
use ezbake_common.OpenShift.{
  env_string, get_repo_path, is_absolute, openshift_repo_dir, file_separator,
}
use ezbake_common.Text

-- Both tests of an absolute path.
is_absolute-starts_with : (path : Chars) → is_absolute path ≡ starts_with path separator
unfolding is_absolute starts_with Text.find
is_absolute-starts_with [] = refl
is_absolute-starts_with (c ∷ s) = elim (Option-cases (Text.find file_separator s)) [
  | inl e ↦ rw (e, is_absolute, Text.find) (ground arith)
  | inr (i, e) ↦ rw (e, is_absolute, Text.find) (ground arith)
]

-- Let the variable of the repository be set and not empty, and the property have a value. Then `getPath`
-- returns the path that `getRepoPath` of the C++ class returns for that value.
get_path-get_repo_path :
    (env : Environment) (c : EzProperties) (property_name path dir : Chars)
    (default_value : Option Chars)
    → env openshift_repo_dir ≡ some dir
    → length dir ≢ 0
    → get_property c property_name ≡ returns (some path)
    → (full : Chars) × (get_path env c property_name default_value ≡ returns (some full))
      × (get_repo_path env path ≡ ok full)
unfolding get_path in_openshift_container Containers.get_repo_dir check_not_null get_repo_path
    OpenShift.get_repo_dir env_string
get_path-get_repo_path env c property_name path dir default_value set full value =
    let container : in_openshift_container env ≡ true = rw (set, in_openshift_container) refl in
    let ours : Containers.get_repo_dir env ≡ returns dir = rw set refl in
    let some_dir : (length dir == 0) ≡ false = ground arith in
    let theirs : OpenShift.get_repo_dir env ≡ ok dir =
      rw (set, OpenShift.get_repo_dir, env_string) (rw some_dir refl) in
    let same = is_absolute-starts_with path in
    elim (Bool-cases (starts_with path separator)) [
      | inl h ↦ (path, rw (value, get_path) (rw (container, h) refl), rw (same, h) refl)
      | inr h ↦ (
        dir ++ separator ++ path,
        rw (value, get_path) (rw (container, h) (rw ours refl)),
        rw (same, h) (rw theirs (ap ok (sym (append_assoc dir separator path)))),
      )
    ]
