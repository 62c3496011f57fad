-- ===== src/Conversions/Laws.antt =====
-- What `convertToBoolean` of StringConversionUtil.h depends on.
use ezbake_common.Common.{ℕ, ◌≡◌, refl, Bool, [], ◌∷◌, map, some, Bytes, arith}
use ezbake_common.Conversions.{to_lower, convert_to_boolean}

to_lower-to_lower : (c : ℕ) → to_lower (to_lower c) ≡ to_lower c
unfolding to_lower
to_lower-to_lower c = ground arith

map-to_lower-to_lower : (s : Bytes) → map to_lower (map to_lower s) ≡ map to_lower s
map-to_lower-to_lower [] = refl
map-to_lower-to_lower (c ∷ s) = λ i. to_lower-to_lower c i ∷ map-to_lower-to_lower s i

-- Texts that differ only in the case of their letters are converted alike, whatever the defaults.
convert_to_boolean-to_lower :
    (s t : Bytes) (d e : Bool)
    → map to_lower s ≡ map to_lower t
    → convert_to_boolean (some s) d ≡ convert_to_boolean (some t) e
unfolding convert_to_boolean
convert_to_boolean-to_lower s t d e h = rw h
