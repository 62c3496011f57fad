-- ===== src/Java/Time/Zone.antt =====
-- The time zone that DateUtils.java makes of an offset from UTC.
use ezbake_common.Common.{
  ℕ, suc, zero, ◌+◌, ◌*◌, ◌/◌, ◌%◌, ◌≤◌, ◌<◌, ◌^◌, ◌≡◌, ◌↔◌, refl, ℤ, pos, negsuc, true, false,
  arith,
}
use ezbake_common.Java.Time.{
  Calendar, TimeZone, zone_of, to_short, div_int, opposite, abs, get_current_time, is_positive,
}

-- The values of a Java int.
abbrev pub IsInt : ℤ → Type 0
IsInt (pos n) = n < 2 ^ 31
IsInt (negsuc m) = m < 2 ^ 31

-- A zone that stands for an offset, to the minute.
abbrev pub Stands : TimeZone → ℤ → Type 0
Stands tz offset =
    (h m : ℕ) × (tz.hour ≡ pos h)
    × (tz.minute ≡ pos m)
    × (m < 60)
    × ((h * 60 + m) * 60_000 ≤ abs offset)
    × (abs offset < (h * 60 + m + 1) * 60_000)
    × ((tz.after_utc ≡ true) ↔ ((n : ℕ) × (offset ≡ pos n) × (60_000 ≤ n)))

to_short-small : (n : ℕ) → n < 2 ^ 15 → to_short (pos n) ≡ pos n
unfolding to_short
to_short-small n h = ground arith

abs-opposite : (n : ℕ) → abs (opposite n) ≡ n
unfolding abs opposite
abs-opposite zero = refl
abs-opposite (suc n) = refl

not_positive-opposite : (n : ℕ) → is_positive (opposite n) ≡ false
unfolding opposite
not_positive-opposite zero = refl
not_positive-opposite (suc n) = refl

zone_of-Stands : (offset : ℤ) → IsInt offset → Stands (zone_of offset) offset
unfolding zone_of div_int abs opposite
zone_of-Stands (pos n) i = (
  n / 60_000 / 60,
  n / 60_000 % 60,
  to_short-small _ (omega arith),
  to_short-small _ (omega arith),
  omega arith,
  omega arith,
  omega arith,
  (λ h. (n, refl, ground arith), λ (k, e, b). ground arith),
)
zone_of-Stands (negsuc m) i = (
  suc m / 60_000 / 60,
  suc m / 60_000 % 60,
  rw (abs-opposite (suc m / 60_000)) (to_short-small _ (omega arith)),
  rw (abs-opposite (suc m / 60_000)) (to_short-small _ (omega arith)),
  omega arith,
  omega arith,
  omega arith,
  (
    λ h. let no_east = not_positive-opposite (suc m / 60_000) in absurd (cc),
    λ (k, e, b). absurd (cc),
  ),
)

-- Let the offset be an int. The zone of the current time has an hour and a minute, the minute below
-- 60 and neither negative, that together are the whole minutes of the offset's magnitude; and it is
-- after UTC exactly where the offset is a whole minute or more ahead of it.
pub get_current_time-Stands :
    (calendar : Calendar)
    → IsInt calendar.offset
    → Stands (get_current_time calendar).tz calendar.offset
unfolding get_current_time
get_current_time-Stands calendar i = zone_of-Stands calendar.offset i
