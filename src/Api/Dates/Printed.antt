-- ===== src/Api/Dates/Printed.antt =====
-- Dates and times, printed and parsed again.
use fovris.Prelude.{
  ℕ, ◌≤◌, ◌<◌, ◌≡◌, arith, leb, ◌++◌, Bool, true, if◌then◌else◌, [], ◌∷◌, ok, err, Bool-cases, inl,
  inr,
}
use fovris.Interning.Integers.{ℤ, pos}
use fovris.Interning.Term.{Date, DateTime, String}
use fovris.Api.Dates.{
  DateException, Tm, YearMonthDay, TimeOfDay, print_year_month_day, print_time_of_day,
  match_seconds, parse_date, parse_date_time_str, date_of_string, new_date, print_date,
  date_time_of_string, new_date_time, print_date_time,
}
use fovris.Api.Dates.RoundTrip.{
  two, fields, date_string, match_date-date_string, print_year_month_day-date_string,
  match_date-short, to_int-pos, make_tm-fields, stoi-four, stoi-two, one_or_two_digits-two,
  add_leading_zero-two,
}

module _ (is_valid_date : ℤ → ℕ → ℕ → Bool) (y m d : ℕ) where
  parse_date-printed :
      y < 10000
      → m < 100
      → d < 100
      → is_valid_date (pos y) m d ≡ true
      → parse_date is_valid_date
          (print_year_month_day (record { year = pos y; month = m; day = d }))
        ≡ (if leb 1000 y then ok (fields y m d 0 0 0) else err DateException.date_parsing)
  unfolding parse_date
  parse_date-printed h k l v = elim (Bool-cases (leb 1000 y)) [
    | inl long ↦
        rw
          (
            print_year_month_day-date_string y m d (ground arith) h k l,
            match_date-date_string y m d [] h k l,
            stoi-four y,
            stoi-two m,
            stoi-two d,
            long,
          )
          (make_tm-fields is_valid_date y m d 0 0 0 (omega arith) (omega arith) (omega arith) v)
    | inr short ↦ rw (match_date-short y m d (ground arith) k l, short)
  ]

  new_date-fields :
      (tm_to_time_point : Tm → ℤ)
      → y < 10000
      → m < 100
      → d < 100
      → is_valid_date (pos y) m d ≡ true
      → new_date is_valid_date tm_to_time_point y m d
        ≡ ok (record { tp = tm_to_time_point (fields y m d 0 0 0) })
  unfolding new_date
  new_date-fields _ h k l v = rw (
    to_int-pos y (omega arith),
    to_int-pos m (omega arith),
    to_int-pos d (omega arith),
    make_tm-fields is_valid_date y m d 0 0 0 (omega arith) (omega arith) (omega arith) v,
    v,
  )

-- The time behind a date.
abbrev time_string : ℕ → ℕ → ℕ → String
time_string hour minute second = two hour ++ (58 ∷ (two minute ++ (58 ∷ two second)))

print_time_of_day-time_string :
    (hour minute second : ℕ)
    → hour < 24
    → minute < 60
    → second < 60
    → print_time_of_day (record { hours = hour; minutes = minute; seconds = second })
      ≡ time_string hour minute second
unfolding print_time_of_day
print_time_of_day-time_string hour minute second h k l = rw (
  add_leading_zero-two hour (omega arith),
  add_leading_zero-two minute (omega arith),
  add_leading_zero-two second (omega arith),
)

match_seconds-two : (second : ℕ) → second < 60 → match_seconds (58 ∷ two second) ≡ ok (two second)
unfolding match_seconds
match_seconds-two second h = rw (one_or_two_digits-two second [] (omega arith))

parse_date_time_str-date_string :
    (is_valid_date : ℤ → ℕ → ℕ → Bool) (y m d hour minute second : ℕ)
    → y < 10000
    → m < 100
    → d < 100
    → is_valid_date (pos y) m d ≡ true
    → hour < 24
    → minute < 60
    → second < 60
    → parse_date_time_str is_valid_date (date_string y m d (32 ∷ time_string hour minute second))
      ≡ ok (fields y m d hour minute second)
unfolding parse_date_time_str
parse_date_time_str-date_string is_valid_date y m d hour minute second h k l v hh mh sh =
    rw
      (
        match_date-date_string y m d (32 ∷ time_string hour minute second) h k l,
        one_or_two_digits-two hour (58 ∷ (two minute ++ (58 ∷ two second))) (omega arith),
        one_or_two_digits-two minute (58 ∷ two second) (omega arith),
        match_seconds-two second sh,
        stoi-four y,
        stoi-two m,
        stoi-two d,
        stoi-two hour,
        stoi-two minute,
        stoi-two second,
      )
      (make_tm-fields is_valid_date y m d hour minute second hh (omega arith) (omega arith) v)

module _ (is_valid_date : ℤ → ℕ → ℕ → Bool) (tm_to_time_point : Tm → ℤ)
    (year_month_day : ℤ → YearMonthDay) where
  -- A valid date of a year to 9999, with a month and a day below 100, that is printed is parsed to the same
  -- date again if the year is not below 1000, and is not parsed otherwise, where the calendar reads the time
  -- point that the date was made to as this date.
  pub date_of_string-print_date :
      (y m d : ℕ)
      → y < 10000
      → m < 100
      → d < 100
      → is_valid_date (pos y) m d ≡ true
      → year_month_day (tm_to_time_point (fields y m d 0 0 0))
        ≡ record { year = pos y; month = m; day = d }
      → (date : Date) × (new_date is_valid_date tm_to_time_point y m d ≡ ok date)
        × (date_of_string is_valid_date tm_to_time_point (print_date year_month_day date)
            ≡ (if leb 1000 y then ok date else err DateException.date_parsing))
  unfolding date_of_string print_date
  date_of_string-print_date y m d k mh dh v civil = (
    record { tp = tm_to_time_point (fields y m d 0 0 0) },
    new_date-fields is_valid_date y m d tm_to_time_point k mh dh v,
    rw (civil, parse_date-printed is_valid_date y m d k mh dh v) (ground arith),
  )

  -- A time of a valid date of a year from 1000 to 9999, with a month and a day below 100, an hour below 24 and a
  -- minute and a second below 60, that is printed is parsed to the same time again, where the calendar reads the
  -- time point that the time was made to as this date and time of day.
  pub date_time_of_string-print_date_time :
      (time_of_day : ℤ → TimeOfDay)
      → (y m d hour minute second : ℕ) → 1000 ≤ y
      → y < 10000
      → m < 100
      → d < 100
      → is_valid_date (pos y) m d ≡ true
      → hour < 24
      → minute < 60
      → second < 60
      → year_month_day (tm_to_time_point (fields y m d hour minute second))
        ≡ record { year = pos y; month = m; day = d }
      → time_of_day (tm_to_time_point (fields y m d hour minute second))
        ≡ record { hours = hour; minutes = minute; seconds = second }
      → (time : DateTime) × (new_date_time is_valid_date tm_to_time_point y m d hour minute second
          ≡ ok time)
        × (date_time_of_string is_valid_date tm_to_time_point
              (print_date_time year_month_day time_of_day time)
            ≡ ok time)
  unfolding date_time_of_string print_date_time new_date_time
  date_time_of_string-print_date_time time_of_day y m d hour minute second h k mh dh v hh ih sh day
        time =
      (
        record { tp = tm_to_time_point (fields y m d hour minute second) },
        rw (
          to_int-pos y (omega arith),
          to_int-pos m (omega arith),
          to_int-pos d (omega arith),
          to_int-pos hour (omega arith),
          to_int-pos minute (omega arith),
          to_int-pos second (omega arith),
          make_tm-fields is_valid_date y m d hour minute second hh (omega arith) (omega arith) v,
        ),
        rw (
          day,
          time,
          print_year_month_day-date_string y m d h k mh dh,
          print_time_of_day-time_string hour minute second hh ih sh,
          parse_date_time_str-date_string is_valid_date y m d hour minute second k mh dh v hh ih sh,
        ),
      )
