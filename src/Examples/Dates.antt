-- ===== src/Examples/Dates.antt =====
-- Runs of the theorems on dates, in a calendar of months of 28 days from the year 1900 on.
use fovris.Prelude.{
  ℕ, ◌+◌, ◌*◌, ◌/◌, ◌%◌, ◌≡◌, refl, arith, leb, ◌&&◌, Bool, false, [], ◌∷◌, ok, err,
}
use fovris.Interning.Integers.{ℤ, pos, negsuc, to_unsigned}
use fovris.Interning.Term.{Date, DateTime}
use fovris.Api.Dates.{
  DateException, Tm, YearMonthDay, TimeOfDay, parse_date, make_tm, stoi, validate_time, four_digits,
  one_or_two_digits, match_date, date_of_string, new_date, print_date, date_time_of_string,
  new_date_time, print_date_time,
}
use fovris.Api.Dates.RoundTrip.{fields}
use fovris.Api.Dates.Printed.{date_of_string-print_date, date_time_of_string-print_date_time}

abbrev is_day : ℤ → ℕ → ℕ → Bool
is_day (pos y) m d = leb 1900 y && leb 1 m && leb m 12 && leb 1 d && leb d 28
is_day (negsuc y) m d = false

abbrev value : ℤ → ℕ
value (pos n) = n
value (negsuc n) = 0

abbrev seconds_of : Tm → ℤ
seconds_of tm = pos (
    ((((value tm.tm_year * 12 + value tm.tm_mon) * 32 + value tm.tm_mday) * 24 + value tm.tm_hour)
          * 60
        + value tm.tm_min)
      * 60
    + value tm.tm_sec)

abbrev day_of : ℤ → YearMonthDay
day_of i = record {
  year = pos (1900 + value i / 86400 / 32 / 12);
  month = 1 + value i / 86400 / 32 % 12;
  day = value i / 86400 % 32;
}

abbrev time_of : ℤ → TimeOfDay
time_of i = record {
  hours = value i / 3600 % 24;
  minutes = value i / 60 % 60;
  seconds = value i % 60;
}

-- The 8th of March 2016.
date_of_string-print_date_example :
    (date : Date) × (new_date is_day seconds_of 2016 3 8 ≡ ok date)
    × (date_of_string is_day seconds_of (print_date day_of date) ≡ ok date)
date_of_string-print_date_example =
    date_of_string-print_date is_day seconds_of day_of 2016 3 8 (omega arith) (omega arith)
      (omega arith) refl refl

date_time_of_string-print_date_time_example :
    (time : DateTime) × (new_date_time is_day seconds_of 2016 3 8 23 59 7 ≡ ok time)
    × (date_time_of_string is_day seconds_of (print_date_time day_of time_of time) ≡ ok time)
date_time_of_string-print_date_time_example =
    date_time_of_string-print_date_time is_day seconds_of day_of time_of 2016 3 8 23 59 7
      (omega arith) (omega arith) (omega arith) (omega arith) refl (omega arith) (omega arith)
      (omega arith) refl refl

-- 2016-3-8, with a month of one digit.
parse_date_short_month :
    parse_date is_day (50 ∷ 48 ∷ 49 ∷ 54 ∷ 45 ∷ 51 ∷ 45 ∷ 56 ∷ []) ≡ ok (fields 2016 3 8 0 0 0)
unfolding parse_date make_tm stoi validate_time to_unsigned four_digits one_or_two_digits match_date
parse_date_short_month = refl

-- A time with the minute 60 is made of its fields.
minute_60 :
    make_tm is_day (pos 2016) (pos 3) (pos 8) (pos 1) (pos 60) (pos 0) ≡ ok (fields 2016 3 8 1 60 0)
unfolding make_tm validate_time to_unsigned
minute_60 = refl

-- Not so with the hour 24.
hour_24 :
    make_tm is_day (pos 2016) (pos 3) (pos 8) (pos 24) (pos 0) (pos 0)
    ≡ err DateException.time_validation
unfolding make_tm validate_time to_unsigned
hour_24 = refl
