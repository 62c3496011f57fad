-- ===== src/Java/Table.antt =====
-- The own entries of a java.util.Properties, a Hashtable from String to String: an association list
-- in which a key that is put again keeps its place.
pub mod Laws
use ezbake_common.Common.{List, [], ◌∷◌, map, Option, none, some, if◌then◌else◌}
use ezbake_common.Java.{Chars}
use ezbake_common.Text

abbrev pub Table : Type 0
Table = List (Chars × Chars)

unfoldable pub lookup : Chars → Table → Option Chars
unfolding Text.equal
lookup k [] = none
lookup k (e ∷ t) = let rest = lookup k t in if Text.equal e.0 k then some e.1 else rest

unfoldable pub put : Chars → Chars → Table → Table
unfolding Text.equal
put k v [] = (k, v) ∷ []
put k v (e ∷ t) = let rest = put k v t in if Text.equal e.0 k then (k, v) ∷ t else e ∷ rest

-- `putAll`, in the order of the other table.
unfoldable pub put_all : Table → Table → Table
unfolding put
put_all t [] = t
put_all t (e ∷ other) = put_all (put e.0 e.1 t) other

abbrev pub keys : Table → List Chars
keys t = map (λ e. e.0) t
