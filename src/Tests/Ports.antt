-- ===== src/Tests/Ports.antt =====
-- HostAndPort on small texts, as in src/test/cpp/hostandport/HostAndPortTests.cpp.
use ezbake_common.Common.{
  ℕ, ap, ◌≤◌, ◌≡◌, ◌↔◌, ◌⊎◌, refl, true, not, ◌∷◌, ◌++◌, Option, none, some, Bytes, codes, ok,
  throw, arith,
}
use ezbake_common.HostAndPort
use ezbake_common.HostAndPort.{
  HostAndPort, delim, max_port, no_port, from_string, from_host, from_parts,
}
use ezbake_common.HostAndPort.Order.{less_self, less_trans, less_total}
use ezbake_common.HostAndPort.Parse.{
  from_string-to_string, from_string-to_string_no_port, from_string-eq_ok,
}
use ezbake_common.Text
use ezbake_common.Text.Decimal.{decimal_cast, read_digits}
use ezbake_common.Text.{LexicalCast}
use ezbake_common.Text.Find.{Lacks}

program : Unit {0}
unfolding from_host HostAndPort.to_string HostAndPort.from_string HostAndPort.equal HostAndPort.less
    HostAndPort.get_port HostAndPort.get_port_or_default Text.find Text.take Text.drop
    Text.to_string read_digits
program = tt

abbrev host_a : Bytes
host_a = codes "a"

abbrev host_b : Bytes
host_b = codes "b"

abbrev a_80 : HostAndPort
a_80 = record { host = host_a; port = some 80 }

from_string_run :
    (from_string decimal_cast (codes "a:80") ≡ ok a_80)
    × (from_string decimal_cast (codes "a") ≡ ok (record { host = host_a; port = none }))
unfolding program
from_string_run = (refl, refl)

host_a-Lacks : Lacks delim host_a
host_a-Lacks = (omega arith, tt)

from_string-to_string_example : from_string decimal_cast (HostAndPort.to_string a_80) ≡ ok a_80
unfolding program
from_string-to_string_example = from_string-to_string decimal_cast host_a 80 a_80 host_a-Lacks refl

from_string-to_string_no_port_example :
    from_string decimal_cast (HostAndPort.to_string (from_host host_a)) ≡ throw decimal_cast.refusal
from_string-to_string_no_port_example =
    from_string-to_string_no_port decimal_cast host_a host_a-Lacks

from_string-eq_ok_example :
    Lacks delim host_a
    × (((a_80.port ≡ none) × (codes "a:80" ≡ host_a))
        ⊎ ((port : ℕ) × (rest : Bytes) × (a_80.port ≡ some port)
            × (port ≤ max_port)
            × (codes "a:80" ≡ host_a ++ delim ∷ rest)
            × (decimal_cast.to_unsigned_int rest ≡ ok port)))
unfolding program
from_string-eq_ok_example = from_string-eq_ok decimal_cast (codes "a:80") a_80 refl

less_self_example : (HostAndPort.less a_80 a_80 ≡ true) ↔ (a_80.port ≡ none)
less_self_example = less_self a_80

less_trans_example : HostAndPort.less (from_host host_a) (from_host host_b) ≡ true
unfolding program
less_trans_example = less_trans (from_host host_a) a_80 (from_host host_b) refl refl

less_total_example :
    HostAndPort.less a_80 (from_host host_b) ≡ not (HostAndPort.less (from_host host_b) a_80)
unfolding program
less_total_example = less_total a_80 (from_host host_b) (λ e.
    let p : ◌≡◌ {A = Option ℕ} (some 80) none = ap (λ (x : HostAndPort). x.port) e in ground arith)

print_run : HostAndPort.print (codes "at ") a_80 ≡ codes "at a:80"
unfolding program HostAndPort.print
print_run = refl
