-- ===== src/HostAndPort.antt =====
-- src/main/cpp/include/ezbake/common/HostAndPort.h: the class HostAndPort.
pub mod Parse
pub mod Order
use ezbake_common.Common.{
  ℕ, suc, ◌+◌, ite, Bool, true, false, not, ◌&&◌, List, [], ◌∷◌, ◌++◌, Option, none, some, Bytes,
  codes, Outcome, ok, throw, undefined, ◌>>=◌, Exception, Kind, invalid_argument, out_of_range, ltb,
  ◌==◌, if◌then◌else◌,
}
use ezbake_common.Text
use ezbake_common.Text.{LexicalCast}

pub record HostAndPort : Type 0 where
  pub host : Bytes
  pub port : Option ℕ

abbrev pub delim : ℕ
delim = b':'

abbrev pub max_port : ℕ
max_port = 65535

-- The exceptions that the class throws.
abbrev pub no_port : Exception
no_port = record { kind = invalid_argument; what = codes "no port defined" }

abbrev pub port_out_of_range : Exception
port_out_of_range = record { kind = out_of_range; what = codes "port out of range" }

-- The constructors, with a port and without one.
unfoldable pub init : Bytes → ℕ → Outcome HostAndPort
init host port =
    if ltb max_port port
    then throw port_out_of_range
    else ok (record { host = host; port = some port })

unfoldable pub init_host : Bytes → HostAndPort
init_host host = record { host = host; port = none }

unfoldable pub from_host : Bytes → HostAndPort
unfolding init_host
from_host host = init_host host

unfoldable pub from_parts : Bytes → ℕ → Outcome HostAndPort
unfolding init
from_parts host port = init host port

unfoldable pub from_string : LexicalCast → Bytes → Outcome HostAndPort
unfolding from_host from_parts Text.find Text.take Text.drop
from_string cast str = elim (Text.find delim str) [
  | none ↦ ok (from_host str)
  | some position ↦ do
    port ← cast.to_unsigned_int (Text.drop (position + 1) str)
    from_parts (Text.take position str) port
]

unfoldable pub get_host_text : HostAndPort → Bytes
get_host_text a = a.host

unfoldable pub get_port : HostAndPort → Outcome ℕ
get_port a = elim a.port [ none ↦ throw no_port | some port ↦ ok port ]

-- `catch (const std::invalid_argument&)`
unfoldable pub or_default : ℕ → Outcome ℕ → Outcome ℕ
or_default d (ok port) = ok port
or_default d (throw e) = elim e.kind [ invalid_argument ↦ ok d | _ ↦ throw e ]
or_default d undefined = undefined

unfoldable pub get_port_or_default : HostAndPort → ℕ → Outcome ℕ
unfolding get_port or_default
get_port_or_default a d = or_default d (get_port a)

unfoldable pub has_port : HostAndPort → Bool
has_port a = elim a.port [ none ↦ false | some _ ↦ true ]

unfoldable pub to_string : HostAndPort → Bytes
unfolding Text.to_string
to_string a = elim a.port [
  | none ↦ a.host ++ delim ∷ []
  | some port ↦ a.host ++ delim ∷ Text.to_string port
]

-- operator<< to a stream, as what was written to it.
unfoldable pub print : Bytes → HostAndPort → Bytes
unfolding to_string
print stream a = stream ++ to_string a

-- `getPort() == getPort()` and `getPort() < getPort()`, where both have a port.
abbrev on_ports : (ℕ → ℕ → Bool) → Option ℕ → Option ℕ → Bool
on_ports compare_ports (some p) (some q) = compare_ports p q
on_ports compare_ports _ _ = false

-- operator==
unfoldable pub equal : HostAndPort → HostAndPort → Bool
unfolding has_port Text.equal
equal a b =
    if Text.equal a.host b.host
    then (if has_port a && has_port b
        then on_ports (λ p q. p == q) a.port b.port
        else if not (has_port a) && not (has_port b)
        then true
        else false)
    else false

-- operator!=
unfoldable pub not_equal : HostAndPort → HostAndPort → Bool
unfolding equal
not_equal a b = not (equal a b)

-- operator<
unfoldable pub less : HostAndPort → HostAndPort → Bool
unfolding has_port Text.equal Text.less
less a b =
    if Text.equal a.host b.host
    then (if has_port a && has_port b
        then on_ports (λ p q. ltb p q) a.port b.port
        else if has_port a
        then false
        else true)
    else Text.less a.host b.host
