-- ===== src/Conversions.antt =====
-- src/main/cpp/include/ezbake/common/utils/StringConversionUtil.h: StringConversionUtil.
pub mod Laws
use ezbake_common.Common.{
  ℕ, ◌+◌, ◌&&◌, ◌||◌, Bool, true, false, List, [], ◌∷◌, map, Option, none, some, Bytes, codes,
  Outcome, ok, leb, if◌then◌else◌,
}
use ezbake_common.Text

-- `tolower` in the "C" locale.
unfoldable pub to_lower : ℕ → ℕ
to_lower c = if leb b'A' c && leb c b'Z' then c + 32 else c

unfoldable pub convert_to_boolean : Option Bytes → Bool → Bool
unfolding to_lower Text.equal
convert_to_boolean none default_value = default_value
convert_to_boolean (some to_convert) default_value =
    let transform = map to_lower to_convert in
    if Text.equal transform (codes "true")
      || Text.equal transform (codes "1")
      || Text.equal transform (codes "t")
      || Text.equal transform (codes "y")
      || Text.equal transform (codes "yes")
    then true
    else false

-- convertToDouble, convertToFloat, convertToInt and convertToLong, with `boost::lexical_cast` to
-- the type.
unfoldable pub convert {ℓ} : {A : Type ℓ} → (Bytes → Outcome A) → Option Bytes → A → Outcome A
convert lexical_cast none default_value = ok default_value
convert lexical_cast (some to_convert) default_value = lexical_cast to_convert
