-- ===== src/Java/OpenShift.antt =====
-- src/main/java/ezbake/common/openshift/OpenShiftUtil.java, over the environment as a function.
use ezbake_common.Common.{
  ℤ, negsuc, ◌++◌, Bool, true, false, Option, none, some, codes, if◌then◌else◌,
}
use ezbake_common.Java.Strings.{ends_with}
use ezbake_common.Java.{Chars, Result, returns, ◌>>=◌, check_not_null}

abbrev pub Environment : Type 0
Environment = Chars → Option Chars

abbrev pub openshift_repo_dir : Chars
openshift_repo_dir = codes "OPENSHIFT_REPO_DIR"

-- `File.separator` on the systems that have OpenShift.
abbrev pub separator : Chars
separator = codes "/"

unfoldable pub in_openshift_container : Environment → Bool
in_openshift_container env = elim (env openshift_repo_dir) [ none ↦ false | some _ ↦ true ]

unfoldable pub get_repo_dir : Environment → Result Chars
unfolding check_not_null
get_repo_dir env = check_not_null (env openshift_repo_dir)

unfoldable pub get_configuration_dir : Environment → Result Chars
unfolding get_repo_dir ends_with
get_configuration_dir env = do
  repo_dir ← get_repo_dir env
  if ends_with repo_dir separator
      then returns (repo_dir ++ codes "config")
      else returns (repo_dir ++ separator ++ codes "config")

-- `to_int` is NumberUtils.toInt and `from_parts` HostAndPort.fromParts, neither of the repository.
unfoldable pub get_thrift_private_info {ℓ} :
    {H : Type ℓ} → (Chars → ℤ → ℤ) → (Chars → ℤ → Result H) → Environment → Result H
unfolding check_not_null
get_thrift_private_info to_int from_parts env = do
  ip ← check_not_null (env (codes "OPENSHIFT_JAVA_THRIFTRUNNER_IP"))
  port ← check_not_null (env (codes "OPENSHIFT_JAVA_THRIFTRUNNER_TCP_PORT"))
  from_parts ip (to_int port (negsuc 0))
