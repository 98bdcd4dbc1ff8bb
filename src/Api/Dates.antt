-- ===== src/Api/Dates.antt =====
-- src/DateTime.cc. The library of include/fovris/date.h and the clock are parameters: `is_valid_date` is
-- `date::year_month_day::ok` of what `date::year`, `date::month` and `date::day` make of the numbers, which
-- they narrow; `tm_to_time_point` is `tmToTimePoint`, by `mktime`; `year_month_day` is
-- `Date::getYearMonthDay`, and `time_of_day` is `DateTime::getTimeOfDay`. A `std::string` is the list of
-- its characters.
pub mod RoundTrip
pub mod Printed
use fovris.Prelude.{
  ℕ, zero, suc, ◌+◌, ◌-◌, ◌*◌, ◌/◌, ◌%◌, ltb, leb, ◌&&◌, ◌||◌, ◌==◌, Bool, true, false,
  if◌then◌else◌, List, [], ◌∷◌, ◌++◌, Result, ok, err, ◌>>=◌,
}
use fovris.Interning.Integers.{ℤ, pos, negsuc, to_unsigned, to_int}
use fovris.Interning.Term.{Date, DateTime, String}

-- `DateValidationException`, `TimeValidationException` and `DateParsingException`.
pub data DateException : Type 0 where
  date_validation time_validation date_parsing : DateException

-- `std::tm`, as far as it is set.
pub record Tm : Type 0 where
  pub tm_sec : ℤ
  pub tm_min : ℤ
  pub tm_hour : ℤ
  pub tm_mday : ℤ
  pub tm_mon : ℤ
  pub tm_year : ℤ

-- `date::year_month_day`
pub record YearMonthDay : Type 0 where
  pub year : ℤ
  pub month : ℕ
  pub day : ℕ

-- `i - k`
abbrev pub minus : ℤ → ℕ → ℤ
minus (pos n) k = if leb k n then pos (n - k) else negsuc (k - n - 1)
minus (negsuc n) k = negsuc (n + k)

-- `validateTime`
unfoldable pub validate_time : ℕ → ℕ → ℕ → Result DateException Unit
validate_time hour minute second =
    if leb 24 hour || ltb 60 minute || ltb 60 second
    then err DateException.time_validation
    else ok tt

-- `\d`
abbrev pub is_digit : ℕ → Bool
is_digit c = leb 48 c && leb c 57

-- `std::stoi`, of digits.
abbrev pub stoi_from : ℕ → String → ℕ
stoi_from n [] = n
stoi_from n (c ∷ s) = stoi_from (n * 10 + (c - 48)) s

unfoldable pub stoi : String → ℤ
stoi s = pos (stoi_from 0 s)

-- What the parts of `DatePattern` and `DateTimePattern` match at the beginning of a string, with the rest of
-- it: `(\d{4})`, `(\d{1,2})`, and a character.
unfoldable pub four_digits : String → Result DateException (String × String)
four_digits (a ∷ b ∷ c ∷ d ∷ s) =
    if is_digit a && is_digit b && is_digit c && is_digit d
    then ok (a ∷ b ∷ c ∷ d ∷ [], s)
    else err DateException.date_parsing
four_digits _ = err DateException.date_parsing

-- No part begins with a digit that follows this one, so that two digits are matched where there are two.
unfoldable pub one_or_two_digits : String → Result DateException (String × String)
one_or_two_digits (a ∷ b ∷ s) =
    if is_digit a
    then (if is_digit b then ok (a ∷ b ∷ [], s) else ok (a ∷ [], b ∷ s))
    else err DateException.date_parsing
one_or_two_digits (a ∷ []) = if is_digit a then ok (a ∷ [], []) else err DateException.date_parsing
one_or_two_digits [] = err DateException.date_parsing

abbrev pub one_of : (ℕ → Bool) → String → Result DateException String
one_of test (c ∷ s) = if test c then ok s else err DateException.date_parsing
one_of test [] = err DateException.date_parsing

abbrev pub at_end : String → Result DateException Unit
at_end [] = ok tt
at_end (c ∷ s) = err DateException.date_parsing

-- `(\d{4})-(\d{1,2})-(\d{1,2})`
unfoldable pub match_date : String → Result DateException (String × String × String × String)
unfolding four_digits one_or_two_digits
match_date s = do
  y ← four_digits s
  s₁ ← one_of (λ c. c == 45) y.1
  m ← one_or_two_digits s₁
  s₂ ← one_of (λ c. c == 45) m.1
  d ← one_or_two_digits s₂
  ok (y.0, m.0, d.0, d.1)

-- `(?::(\d{1,2}))?` at the end of a string.
unfoldable pub match_seconds : String → Result DateException String
unfolding one_or_two_digits
match_seconds [] = ok []
match_seconds (c ∷ s) = do
  rest ← one_of (λ x. x == 58) (c ∷ s)
  second ← one_or_two_digits rest
  end ← at_end second.1
  ok second.0

-- `operator<<` of an `unsigned`, which has at most ten digits.
unfoldable pub digits : ℕ → ℕ → String
digits zero n = []
digits (suc fuel) n =
    let rest = digits fuel (n / 10) in
    if ltb n 10 then (48 + n) ∷ [] else rest ++ (48 + n % 10) ∷ []

unfoldable pub print_unsigned : ℕ → String
unfolding digits
print_unsigned n = digits 10 n

-- `operator<<` of an `int`.
unfoldable pub print_int : ℤ → String
unfolding print_unsigned
print_int (pos n) = print_unsigned n
print_int (negsuc n) = 45 ∷ print_unsigned (suc n)

unfoldable pub add_leading_zero : ℕ → String
unfolding print_unsigned
add_leading_zero n = if ltb n 10 then 48 ∷ print_unsigned n else print_unsigned n

-- What `operator<<` prints of the year, the month and the day of a date.
unfoldable pub print_year_month_day : YearMonthDay → String
unfolding print_int add_leading_zero
print_year_month_day ymd =
    print_int ymd.year ++ (45 ∷ (add_leading_zero ymd.month ++ (45 ∷ add_leading_zero ymd.day)))

-- `date::time_of_day<std::chrono::seconds>`
pub record TimeOfDay : Type 0 where
  pub hours : ℕ
  pub minutes : ℕ
  pub seconds : ℕ

-- What `operator<<` prints of the time of day of a date with a time.
unfoldable pub print_time_of_day : TimeOfDay → String
unfolding add_leading_zero
print_time_of_day tod =
    add_leading_zero tod.hours
    ++ (58 ∷ (add_leading_zero tod.minutes ++ (58 ∷ add_leading_zero tod.seconds)))

module _ (is_valid_date : ℤ → ℕ → ℕ → Bool) where
  -- `validateDate`
  abbrev pub validate_date : ℤ → ℕ → ℕ → Result DateException Unit
  validate_date year month day =
      if is_valid_date year month day then ok tt else err DateException.date_validation

  -- `makeTm`
  unfoldable pub make_tm : ℤ → ℤ → ℤ → ℤ → ℤ → ℤ → Result DateException Tm
  unfolding validate_time
  make_tm year month day hour minute second = do
    valid_time ← validate_time (to_unsigned hour) (to_unsigned minute) (to_unsigned second)
    valid_date ← validate_date year (to_unsigned month) (to_unsigned day)
    ok (record {
      tm_sec = second;
      tm_min = minute;
      tm_hour = hour;
      tm_mday = day;
      tm_mon = minus month 1;
      tm_year = minus year 1900;
    })

  -- `parseDate`
  unfoldable pub parse_date : String → Result DateException Tm
  unfolding match_date
  parse_date s = do
    fields ← match_date s
    end ← at_end fields.3
    make_tm (stoi fields.0) (stoi fields.1) (stoi fields.2) (pos 0) (pos 0) (pos 0)

  -- `parseDateTimeStr`
  unfoldable pub parse_date_time_str : String → Result DateException Tm
  unfolding match_date match_seconds one_or_two_digits
  parse_date_time_str s = do
    fields ← match_date s
    s₁ ← one_of (λ c. c == 84 || c == 32) fields.3
    hour ← one_or_two_digits s₁
    s₂ ← one_of (λ c. c == 58) hour.1
    minute ← one_or_two_digits s₂
    seconds ← match_seconds minute.1
    make_tm (stoi fields.0) (stoi fields.1) (stoi fields.2) (stoi hour.0) (stoi minute.0)
        (stoi seconds)

module _ (is_valid_date : ℤ → ℕ → ℕ → Bool) (tm_to_time_point : Tm → ℤ) where
  -- `Date::Date` of a string.
  unfoldable pub date_of_string : String → Result DateException Date
  unfolding parse_date
  date_of_string s = parse_date is_valid_date s >>= λ tm. ok (record { tp = tm_to_time_point tm })

  -- `Date::Date` of numbers.
  unfoldable pub new_date : ℕ → ℕ → ℕ → Result DateException Date
  unfolding make_tm
  new_date year month day = do
    tm ← make_tm is_valid_date (to_int year) (to_int month) (to_int day) (pos 0) (pos 0) (pos 0)
    valid ← validate_date is_valid_date (to_int year) month day
    ok (record { tp = tm_to_time_point tm })

  -- `DateTime::DateTime` of a string.
  unfoldable pub date_time_of_string : String → Result DateException DateTime
  unfolding parse_date_time_str
  date_time_of_string s =
      parse_date_time_str is_valid_date s >>= λ tm. ok (record { tp = tm_to_time_point tm })

  -- `DateTime::DateTime` of numbers.
  unfoldable pub new_date_time : ℕ → ℕ → ℕ → ℕ → ℕ → ℕ → Result DateException DateTime
  unfolding make_tm
  new_date_time year month day hour minute second =
      make_tm is_valid_date (to_int year) (to_int month) (to_int day) (to_int hour) (to_int minute)
        (to_int second)
      >>= λ tm. ok (record { tp = tm_to_time_point tm })

module _ (year_month_day : ℤ → YearMonthDay) where
  -- `operator<<` of a date.
  unfoldable pub print_date : Date → String
  unfolding print_year_month_day
  print_date d = print_year_month_day (year_month_day d.tp)

  -- `operator<<` of a date with a time.
  unfoldable pub print_date_time : (ℤ → TimeOfDay) → DateTime → String
  unfolding print_year_month_day print_time_of_day
  print_date_time time_of_day d =
      print_year_month_day (year_month_day d.tp) ++ (32 ∷ print_time_of_day (time_of_day d.tp))
