-- ===== src/Java/Strings.antt =====
-- What the code uses of java.lang.String.
pub mod Laws
use ezbake_common.Common.{
  ℕ, ◌-◌, ◌||◌, Bool, true, false, List, [], ◌∷◌, length, ltb, leb, ◌==◌, if◌then◌else◌,
}
use ezbake_common.Java.{Chars, Result, returns, throws, index_out_of_bounds}
use ezbake_common.Text

-- `trim` drops the units up to the space at both ends.
unfoldable pub trim_start : Chars → Chars
trim_start [] = []
trim_start (c ∷ s) = let rest = trim_start s in if leb c b' ' then rest else c ∷ s

unfoldable pub trim_end : Chars → Chars
trim_end [] = []
trim_end (c ∷ s) =
    let rest = trim_end s in
    elim rest [ [] ↦ if leb c b' ' then [] else c ∷ [] | d ∷ kept ↦ c ∷ d ∷ kept ]

unfoldable pub trim : Chars → Chars
unfolding trim_start trim_end
trim s = trim_end (trim_start s)

unfoldable pub starts_with : Chars → Chars → Bool
starts_with s [] = true
starts_with [] (p ∷ prefix) = false
starts_with (c ∷ s) (p ∷ prefix) = let rest = starts_with s prefix in if c == p then rest else false

-- `startsWith(suffix, length() - suffix.length())`, which is false before the start.
unfoldable pub ends_with : Chars → Chars → Bool
unfolding starts_with Text.drop
ends_with s suffix =
    if ltb (length s) (length suffix)
    then false
    else starts_with (Text.drop (length s - length suffix) s) suffix

-- `substring(begin, end)`. An end that is below 0 in the source is 0 here; the begin is above both.
unfoldable pub substring : Chars → ℕ → ℕ → Result Chars
unfolding Text.take Text.drop
substring s start end =
    if ltb end start || ltb (length s) end
    then throws index_out_of_bounds
    else returns (Text.take (end - start) (Text.drop start s))
