-- ===== src/Java/Time.antt =====
-- src/main/java/ezbake/common/time/DateUtils.java. A reading of java.util.Calendar is a parameter:
-- its fields as ints, and the offset of its time zone in milliseconds. Of the Thrift classes there
-- is what the code sets; a short has 16 bits.
pub mod Zone
use ezbake_common.Common.{
  ℕ, suc, zero, ◌+◌, ◌-◌, ◌/◌, ◌%◌, ◌^◌, ℤ, pos, negsuc, Bool, true, false, ltb, if◌then◌else◌,
}

pub record Calendar : Type 0 where
  pub offset : ℤ
  pub millisecond : ℤ
  pub second : ℤ
  pub minute : ℤ
  pub hour_of_day : ℤ
  pub day_of_month : ℤ
  pub month : ℤ
  pub year : ℤ

pub record TimeZone : Type 0 where
  pub hour : ℤ
  pub minute : ℤ
  pub after_utc : Bool

pub record Time : Type 0 where
  pub millisecond : ℤ
  pub second : ℤ
  pub minute : ℤ
  pub hour : ℤ
  pub tz : TimeZone

pub record Date : Type 0 where
  pub day : ℤ
  pub month : ℤ
  pub year : ℤ

pub record DateTime : Type 0 where
  pub date : Date
  pub time : Time

-- The cast `(short)` keeps the low 16 bits.
unfoldable pub signed : ℕ → ℤ
signed w = if ltb w (2 ^ 15) then pos w else negsuc (2 ^ 16 - 1 - w)

unfoldable pub to_short : ℤ → ℤ
unfolding signed
to_short (pos n) = signed (n % 2 ^ 16)
to_short (negsuc m) = signed (2 ^ 16 - 1 - m % 2 ^ 16)

-- Division of ints rounds to zero.
unfoldable pub opposite : ℕ → ℤ
opposite zero = pos 0
opposite (suc n) = negsuc n

unfoldable pub div_int : ℤ → ℕ → ℤ
unfolding opposite
div_int (pos n) d = pos (n / d)
div_int (negsuc m) d = opposite (suc m / d)

-- `Math.abs`
unfoldable pub abs : ℤ → ℕ
abs (pos n) = n
abs (negsuc m) = suc m

abbrev pub is_positive : ℤ → Bool
is_positive (pos n) = ltb 0 n
is_positive (negsuc m) = false

unfoldable pub add_one : ℤ → ℤ
unfolding opposite
add_one (pos n) = pos (suc n)
add_one (negsuc m) = opposite m

-- The time zone that `getCurrentTime` makes of an offset.
unfoldable pub zone_of : ℤ → TimeZone
unfolding to_short div_int abs
zone_of offset =
    let offset_minutes = div_int offset 60_000 in
    let after_utc = is_positive offset_minutes in
    let offset_minutes = abs offset_minutes in
    record {
      hour = to_short (pos (offset_minutes / 60));
      minute = to_short (pos (offset_minutes % 60));
      after_utc = after_utc;
    }

unfoldable pub get_current_time : Calendar → Time
unfolding zone_of to_short
get_current_time calendar = record {
  millisecond = to_short calendar.millisecond;
  second = to_short calendar.second;
  minute = to_short calendar.minute;
  hour = to_short calendar.hour_of_day;
  tz = zone_of calendar.offset;
}

unfoldable pub get_current_date : Calendar → Date
unfolding to_short add_one
get_current_date calendar = record {
  day = to_short calendar.day_of_month;
  month = to_short (add_one calendar.month);
  year = to_short calendar.year;
}

-- The clock is read once for the date and again for the time.
unfoldable pub get_current_date_time : Calendar → Calendar → DateTime
unfolding get_current_date get_current_time
get_current_date_time for_date for_time = record {
  date = get_current_date for_date;
  time = get_current_time for_time;
}
