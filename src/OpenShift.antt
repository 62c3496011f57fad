-- ===== src/OpenShift.antt =====
-- src/main/cpp/utils/OpenShiftUtil.cpp: OpenShiftUtil. The environment is a function, as `getenv`
-- of the C library reads it; a std::string of a null pointer is undefined.
pub mod Paths
pub mod Thrift
use ezbake_common.Common.{
  ℕ, suc, ◌+◌, ◌≤◌, ◌^◌, ◌<◌, ◌≡◌, ℤ, pos, negsuc, unsigned_of, Bool, true, false, not, List, [],
  ◌∷◌, ◌++◌, Option, none, some, Bytes, codes, Outcome, ok, throw, undefined, ◌>>=◌, Exception,
  Kind, runtime_error, length, ◌==◌, if◌then◌else◌,
}
use ezbake_common.Conversions.{convert}
use ezbake_common.HostAndPort.{HostAndPort, from_parts}
use ezbake_common.Text

abbrev pub Environment : Type 0
Environment = Bytes → Option Bytes

abbrev pub file_separator : ℕ
file_separator = b'/'

abbrev pub openshift_repo_dir : Bytes
openshift_repo_dir = codes "OPENSHIFT_REPO_DIR"

abbrev pub openshift_java_thriftrunner_ip : Bytes
openshift_java_thriftrunner_ip = codes "OPENSHIFT_JAVA_THRIFTRUNNER_IP"

abbrev pub openshift_java_thriftrunner_tcp_port : Bytes
openshift_java_thriftrunner_tcp_port = codes "OPENSHIFT_JAVA_THRIFTRUNNER_TCP_PORT"

-- `std::string(getenv(name))`
unfoldable pub env_string : Environment → Bytes → Outcome Bytes
env_string env name = elim (env name) [ none ↦ undefined | some s ↦ ok s ]

-- `s.find_first_not_of(' ') != npos`
unfoldable pub has_text : Bytes → Bool
has_text [] = false
has_text (c ∷ s) = let rest = has_text s in if c == b' ' then rest else true

-- `s.find_last_of(c)`
unfoldable pub find_last : ℕ → Bytes → Option ℕ
find_last c [] = none
find_last c (d ∷ s) =
    let later = find_last c s in
    elim later [ some i ↦ some (suc i) | none ↦ if d == c then some 0 else none ]

-- The exceptions for a variable without a value.
abbrev pub repo_not_set : Exception
repo_not_set = record {
  kind = runtime_error;
  what = codes "environment var" ++ openshift_repo_dir ++ codes " not set";
}

abbrev pub var_not_set : Bytes → Exception
var_not_set name = record {
  kind = runtime_error;
  what = codes "environment var " ++ name ++ codes " not set";
}

unfoldable pub in_openshift_container : Environment → Bool
unfolding has_text
in_openshift_container env = elim (env openshift_repo_dir) [ none ↦ false | some s ↦ has_text s ]

unfoldable pub get_repo_dir : Environment → Outcome Bytes
unfolding env_string
get_repo_dir env = do
  dir_from_env ← env_string env openshift_repo_dir
  if length dir_from_env == 0 then throw repo_not_set else ok dir_from_env

-- `find_last_of(FILE_SEPERATOR) == length() - 1`; without a separator it holds for the empty text.
unfoldable pub ends_in_separator : Bytes → Bool
unfolding find_last
ends_in_separator s = elim (find_last file_separator s) [
  | none ↦ length s == 0
  | some i ↦ suc i == length s
]

unfoldable pub get_configuration_dir : Environment → Outcome Bytes
unfolding get_repo_dir ends_in_separator
get_configuration_dir env = do
  dir_from_env ← get_repo_dir env
  if ends_in_separator dir_from_env
      then ok (dir_from_env ++ codes "config")
      else ok (dir_from_env ++ file_separator ∷ codes "config")

-- `file.find(FILE_SEPERATOR) == 0`
unfoldable pub is_absolute : Bytes → Bool
unfolding Text.find
is_absolute file = elim (Text.find file_separator file) [ none ↦ false | some i ↦ i == 0 ]

unfoldable pub get_repo_path : Environment → Bytes → Outcome Bytes
unfolding is_absolute get_repo_dir
get_repo_path env file =
    if is_absolute file
    then ok file
    else (do dir ← get_repo_dir env; ok (dir ++ file_separator ∷ file))

-- `lexical_cast` is boost::lexical_cast<int>, whose value becomes an unsigned int.
unfoldable pub get_thrift_private_info : (Bytes → Outcome ℤ) → Environment → Outcome HostAndPort
unfolding env_string has_text convert unsigned_of from_parts
get_thrift_private_info lexical_cast env = do
  ip ← env_string env openshift_java_thriftrunner_ip
  port ← env_string env openshift_java_thriftrunner_tcp_port
  if not (has_text ip)
      then throw (var_not_set openshift_java_thriftrunner_ip)
      else if not (has_text port)
      then throw (var_not_set openshift_java_thriftrunner_tcp_port)
      else (do
        number ← convert lexical_cast (some port) (negsuc 0)
        from_parts ip (unsigned_of number))
