-- ===== src/Api/Dates/RoundTrip.antt =====
-- The fields of a date, printed and matched.
use fovris.Prelude.{
  ℕ, suc, ◌+◌, ◌/◌, ◌%◌, ◌≤◌, ◌<◌, ◌≡◌, ap, arith, ltb, Bool, true, if◌then◌else◌, [], ◌∷◌, ◌++◌,
  ok, err, Bool-cases, inl, inr,
}
use fovris.Interning.Integers.{ℤ, pos, to_unsigned, to_int}
use fovris.Interning.Term.{String}
use fovris.Api.Dates.{
  DateException, minus, Tm, digits, print_unsigned, add_leading_zero, stoi, print_year_month_day,
  print_int, match_date, make_tm, validate_time, four_digits, one_or_two_digits, is_digit,
}

digits_one : (k n : ℕ) → n < 10 → digits (suc k) n ≡ (48 + n) ∷ []
unfolding digits
digits_one k n h = ground arith

digits_more :
    (k n : ℕ) (ds : String)
    → 10 ≤ n
    → digits k (n / 10) ≡ ds
    → digits (suc k) n ≡ (ds ++ ((48 + n % 10) ∷ []))
unfolding digits
digits_more k n ds h e = ground (arith, e)

-- The digits of a number below 10000, and of one below 100.
abbrev pub four : ℕ → String
four n = (48 + n / 10 / 10 / 10) ∷ (48 + n / 10 / 10 % 10) ∷ (48 + n / 10 % 10) ∷ (48 + n % 10) ∷ []

abbrev pub two : ℕ → String
two n = (48 + n / 10) ∷ (48 + n % 10) ∷ []

print_unsigned-four : (n : ℕ) → 1000 ≤ n → n < 10000 → print_unsigned n ≡ four n
unfolding print_unsigned
print_unsigned-four n h k = digits_more 9 n _ (omega arith) (
    digits_more 8 (n / 10) _ (omega arith)
      (digits_more 7 (n / 10 / 10) _ (omega arith) (digits_one 6 (n / 10 / 10 / 10) (omega arith))))

print_unsigned-one : (n : ℕ) → n < 10 → print_unsigned n ≡ (48 + n) ∷ []
unfolding print_unsigned
print_unsigned-one n h = digits_one 9 n h

print_unsigned-two : (n : ℕ) → 10 ≤ n → n < 100 → print_unsigned n ≡ two n
unfolding print_unsigned
print_unsigned-two n h k = digits_more 9 n _ h (digits_one 8 (n / 10) (omega arith))

if_two :
    (n : ℕ) (p : String)
    → n < 100
    → (n < 10 → p ≡ (48 + n) ∷ [])
    → (10 ≤ n → p ≡ two n)
    → (if ltb n 10 then 48 ∷ p else p) ≡ two n
if_two n p h one more = ground (arith, one, more)

pub add_leading_zero-two : (n : ℕ) → n < 100 → add_leading_zero n ≡ two n
unfolding add_leading_zero
add_leading_zero-two n h =
    if_two n (print_unsigned n) h (print_unsigned-one n) (λ k. print_unsigned-two n k h)

is_digit_lem : (n : ℕ) → n < 10 → is_digit (48 + n) ≡ true
is_digit_lem n h = ground arith

four_digits-four : (n : ℕ) (s : String) → n < 10000 → four_digits (four n ++ s) ≡ ok (four n, s)
unfolding four_digits
four_digits-four n s h = ground (
  arith,
  is_digit_lem (n / 10 / 10 / 10) (omega arith),
  is_digit_lem (n / 10 / 10 % 10) (omega arith),
  is_digit_lem (n / 10 % 10) (omega arith),
  is_digit_lem (n % 10) (omega arith),
)

pub one_or_two_digits-two :
    (n : ℕ) (s : String) → n < 100 → one_or_two_digits (two n ++ s) ≡ ok (two n, s)
unfolding one_or_two_digits
one_or_two_digits-two n s h =
    ground (arith, is_digit_lem (n / 10) (omega arith), is_digit_lem (n % 10) (omega arith))

pub stoi-four : (n : ℕ) → stoi (four n) ≡ pos n
unfolding stoi
stoi-four n = ap pos (omega arith)

pub stoi-two : (n : ℕ) → stoi (two n) ≡ pos n
unfolding stoi
stoi-two n = ap pos (omega arith)

abbrev pub date_string : ℕ → ℕ → ℕ → String → String
date_string y m d s = four y ++ (45 ∷ (two m ++ (45 ∷ (two d ++ s))))

pub match_date-date_string :
    (y m d : ℕ) (s : String)
    → y < 10000
    → m < 100
    → d < 100
    → match_date (date_string y m d s) ≡ ok (four y, two m, two d, s)
unfolding match_date
match_date-date_string y m d s h mh dh = rw (
  four_digits-four y (45 ∷ (two m ++ (45 ∷ (two d ++ s)))) h,
  one_or_two_digits-two m (45 ∷ (two d ++ s)) mh,
  one_or_two_digits-two d s dh,
)

pub print_year_month_day-date_string :
    (y m d : ℕ)
    → 1000 ≤ y
    → y < 10000
    → m < 100
    → d < 100
    → print_year_month_day (record { year = pos y; month = m; day = d }) ≡ date_string y m d []
unfolding print_year_month_day print_int
print_year_month_day-date_string y m d h k mh dh =
    rw (print_unsigned-four y h k, add_leading_zero-two m mh, add_leading_zero-two d dh)

print_unsigned-three :
    (n : ℕ)
    → 100 ≤ n
    → n < 1000
    → print_unsigned n ≡ (48 + n / 10 / 10) ∷ (48 + n / 10 % 10) ∷ (48 + n % 10) ∷ []
unfolding print_unsigned
print_unsigned-three n h k =
    digits_more 9 n _ (omega arith)
      (digits_more 8 (n / 10) _ (omega arith) (digits_one 7 (n / 10 / 10) (omega arith)))

-- A dash among the first four characters.
four_digits-dash :
    (n a b c : ℕ) (s : String)
    → n < 1000
    → four_digits (print_unsigned n ++ (45 ∷ a ∷ b ∷ c ∷ s)) ≡ err DateException.date_parsing
unfolding four_digits
four_digits-dash n a b c s h = elim (Bool-cases (ltb n 10)) [
  | inl one ↦ rw (print_unsigned-one n (ground arith)) (ground arith)
  | inr more ↦ elim (Bool-cases (ltb n 100)) [
    | inl two ↦ rw (print_unsigned-two n (ground arith) (ground arith)) (ground arith)
    | inr three ↦ rw (print_unsigned-three n (ground arith) h) (ground arith)
  ]
]

pub match_date-short :
    (y m d : ℕ)
    → y < 1000
    → m < 100
    → d < 100
    → match_date (print_year_month_day (record { year = pos y; month = m; day = d }))
      ≡ err DateException.date_parsing
unfolding print_year_month_day print_int match_date
match_date-short y m d h mh dh =
    rw (add_leading_zero-two m mh, add_leading_zero-two d dh, four_digits-dash y _ _ _ _ h)

pub to_int-pos : (n : ℕ) → n < 10000 → to_int n ≡ pos n
unfolding to_int
to_int-pos n h = ground arith

-- The fields of a time of a day.
abbrev pub fields : ℕ → ℕ → ℕ → ℕ → ℕ → ℕ → Tm
fields y m d hour minute second = record {
  tm_sec = pos second;
  tm_min = pos minute;
  tm_hour = pos hour;
  tm_mday = pos d;
  tm_mon = minus (pos m) 1;
  tm_year = minus (pos y) 1900;
}

-- `make_tm` puts its arguments into the fields where they are a time, in which the minute and the second may
-- be 60, and a date.
pub make_tm-fields :
    (is_valid_date : ℤ → ℕ → ℕ → Bool) (y m d hour minute second : ℕ)
    → hour < 24
    → minute ≤ 60
    → second ≤ 60
    → is_valid_date (pos y) m d ≡ true
    → make_tm is_valid_date (pos y) (pos m) (pos d) (pos hour) (pos minute) (pos second)
      ≡ ok (fields y m d hour minute second)
unfolding make_tm validate_time to_unsigned
make_tm-fields _ y m d hour minute second h k l v = rw v (ground arith)
