-- ===== src/OpenShift/Thrift.antt =====
-- `getThriftPrivateInfo` of OpenShiftUtil.cpp.
use ezbake_common.Common.{
  ℕ, ap, ◌∙◌, ◌%◌, ◌^◌, ◌≤◌, ◌<◌, ◌≡◌, refl, ℤ, pos, negsuc, unsigned_of, true, some, Bytes,
  Outcome, ok, throw, undefined, >>=-eq_ok, Option-cases, Bool-cases, inl, inr, arith,
}
use ezbake_common.HostAndPort.{HostAndPort, max_port, from_parts}
use ezbake_common.HostAndPort.Parse.{from_parts-eq_ok}
use ezbake_common.Conversions.{convert}
use ezbake_common.OpenShift.{
  Environment, openshift_java_thriftrunner_ip, openshift_java_thriftrunner_tcp_port, env_string,
  has_text, get_thrift_private_info, var_not_set,
}

-- The values of an int of 32 bits.
abbrev pub IsInt : ℤ → Type 0
IsInt (pos n) = n < 2 ^ 31
IsInt (negsuc m) = m < 2 ^ 31

port_of :
    (number : ℤ) → IsInt number → unsigned_of number ≤ max_port → number ≡ pos (unsigned_of number)
unfolding unsigned_of
port_of (pos n) h b = let e : n ≡ n % 2 ^ 32 = omega arith in λ i. pos (e i)
port_of (negsuc m) h b = absurd (omega arith)

env_string-eq_ok :
    (env : Environment) (name s : Bytes) → env_string env name ≡ ok s → env name ≡ some s
unfolding env_string
env_string-eq_ok env name s h = elim (Option-cases (env name)) [
  | inl e ↦ let q : ◌≡◌ {A = Outcome Bytes} undefined (ok s) = rw (e, env_string) at h in cc
  | inr (t, e) ↦ let q : ok t ≡ ok s = rw (e, env_string) at h in let r : t ≡ s = cc in rw (← r) e
]

-- Let `lexical_cast` return ints. Where `getThriftPrivateInfo` returns, its host is the value of
-- the address variable, and its port, from 0 to 65535, is the number that the port variable spells;
-- both values have more than blanks.
pub get_thrift_private_info-eq_ok :
    (lexical_cast : Bytes → Outcome ℤ) (env : Environment) (a : HostAndPort)
    → ((s : Bytes) (number : ℤ) → lexical_cast s ≡ ok number → IsInt number)
    → get_thrift_private_info lexical_cast env ≡ ok a
    → (env openshift_java_thriftrunner_ip ≡ some a.host)
      × (has_text a.host ≡ true)
      × ((text : Bytes) × (port : ℕ) × (env openshift_java_thriftrunner_tcp_port ≡ some text)
          × (has_text text ≡ true)
          × (lexical_cast text ≡ ok (pos port))
          × (a.port ≡ some port)
          × (port ≤ max_port))
unfolding get_thrift_private_info convert
get_thrift_private_info-eq_ok lexical_cast env a ints h =
    let (ip, e, h') = >>=-eq_ok (env_string env openshift_java_thriftrunner_ip) _ h in
    let (text, f, h'') = >>=-eq_ok (env_string env openshift_java_thriftrunner_tcp_port) _ h' in
    elim (Bool-cases (has_text ip)) [
      | inr n ↦
          let q : ◌≡◌ {A = Outcome HostAndPort} (throw (var_not_set openshift_java_thriftrunner_ip))
              (ok a) =
            rw n at h'' in
          cc
      | inl t ↦ elim (Bool-cases (has_text text)) [
        | inr n ↦
            let q : ◌≡◌ {A = Outcome HostAndPort}
                (throw (var_not_set openshift_java_thriftrunner_tcp_port)) (ok a) =
              rw (t, n) at h'' in
            cc
        | inl u ↦
            let (number, cast, made) =
              >>=-eq_ok (lexical_cast text) (λ (number : ℤ). from_parts ip (unsigned_of number))
                (rw (t, u) at h'') in
            let (bound, q) = from_parts-eq_ok ip (unsigned_of number) a made in
            let p = port_of number (ints text number cast) bound in
            rw q (
              env_string-eq_ok env openshift_java_thriftrunner_ip ip e,
              t,
              (
                text,
                unsigned_of number,
                env_string-eq_ok env openshift_java_thriftrunner_tcp_port text f,
                u,
                cast ∙ ap ok p,
                refl,
                bound,
              ),
            )
      ]
    ]
