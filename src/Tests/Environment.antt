-- ===== src/Tests/Environment.antt =====
-- OpenShiftUtil and StringConversionUtil on small values.
use ezbake_common.Common.{
  ℕ, ℤ, pos, ◌≡◌, refl, true, false, Option, none, some, Bytes, codes, Outcome, ok, undefined, ◌≤◌,
  arith,
}
use ezbake_common.Conversions.{convert_to_boolean, to_lower}
use ezbake_common.HostAndPort.{max_port}
use ezbake_common.OpenShift.{
  Environment, openshift_java_thriftrunner_ip, openshift_java_thriftrunner_tcp_port,
  get_configuration_dir, get_thrift_private_info, has_text, get_repo_path, in_openshift_container,
}
use ezbake_common.OpenShift.Thrift.{get_thrift_private_info-eq_ok}

-- Every variable has the value "/r/"; no variable has one.
abbrev set_env : Environment
set_env name = some (codes "/r/")

abbrev empty_env : Environment
empty_env name = none

-- Reads every text as 80.
abbrev eighty : Bytes → Outcome ℤ
eighty s = ok (pos 80)

program : Unit {0}
unfolding get_configuration_dir get_repo_path get_thrift_private_info in_openshift_container
    convert_to_boolean to_lower
program = tt

configuration_run :
    (get_configuration_dir set_env ≡ ok (codes "/r/config"))
    × (get_configuration_dir empty_env ≡ undefined)
    × (get_repo_path set_env (codes "x") ≡ ok (codes "/r//x"))
    × (in_openshift_container empty_env ≡ false)
unfolding program
configuration_run = (refl, refl, refl, refl)

get_thrift_private_info-eq_ok_example :
    (set_env openshift_java_thriftrunner_ip ≡ some (codes "/r/"))
    × (has_text (codes "/r/") ≡ true)
    × ((text : Bytes) × (port : ℕ) × (set_env openshift_java_thriftrunner_tcp_port ≡ some text)
        × (has_text text ≡ true)
        × (eighty text ≡ ok (pos port))
        × (◌≡◌ {A = Option ℕ} (some 80) (some port))
        × (port ≤ max_port))
unfolding program
get_thrift_private_info-eq_ok_example =
    get_thrift_private_info-eq_ok eighty set_env (record { host = codes "/r/"; port = some 80 })
      (λ s number e. let q : pos 80 ≡ number = cc in rw (← q) (omega arith)) refl

boolean_run :
    (convert_to_boolean (some (codes "yES")) false ≡ true)
    × (convert_to_boolean (some (codes "no")) true ≡ false)
    × (convert_to_boolean none true ≡ true)
unfolding program
boolean_run = (refl, refl, refl)
