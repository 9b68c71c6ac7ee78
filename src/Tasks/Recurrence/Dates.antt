-- ===== src/Tasks/Recurrence/Dates.antt =====
-- Due dates: the pattern of tasks/validate.go against the dates that tasks/update_task_list.go parses
-- and prints.
use echolist_backend.Base.{
  ℕ, ◌+◌, ◌*◌, ◌/◌, ◌<◌, ◌≤◌, true, none, some, [], ◌∷◌, if◌then◌else◌, Bytes, ◌≡◌, refl, arith,
}
use echolist_backend.Tasks.Validate.{is_digit, due_date_regex}
use echolist_backend.Common.Uuid.{match_classes}
use echolist_backend.Tasks.Recurrence.{
  Date, days_in, is_valid_date, two_digits, digit, parse_date, format_date,
}

abbrev digits_of : Date → Bytes
digits_of d =
    digit (d.year / 1000)
    ∷ digit (d.year / 100)
    ∷ digit (d.year / 10)
    ∷ digit d.year
    ∷ b'-'
    ∷ digit (d.month / 10)
    ∷ digit d.month
    ∷ b'-'
    ∷ digit (d.day / 10)
    ∷ digit d.day
    ∷ []

format_date-eq-digits_of : (d : Date) → d.year < 10000 → format_date d ≡ digits_of d
unfolding format_date
format_date-eq-digits_of d y = ground arith

days_in-le : (month year : ℕ) → days_in month year ≤ 31
days_in-le month year = ground arith

digit-is_digit : (n : ℕ) → is_digit (digit n) ≡ true
digit-is_digit n = ground arith

year_of_digits :
    (y : ℕ)
    → y < 10000
    → two_digits (digit (y / 1000)) (digit (y / 100)) * 100 + two_digits (digit (y / 10)) (digit y)
      ≡ y
year_of_digits y h = omega arith

pair_of_digits : (n : ℕ) → n < 100 → two_digits (digit (n / 10)) (digit n) ≡ n
pair_of_digits n h = omega arith

pub valid_bounds : (d : Date) → is_valid_date d ≡ true → (d.month < 100) × (d.day < 100)
valid_bounds d v = ground (arith, days_in-le d.month d.year)

-- Numbers in the range of the format parse as a date exactly if they are one.
parse_date-digits_of :
    (d : Date)
    → d.year < 10000
    → d.month < 100
    → d.day < 100
    → parse_date (digits_of d) ≡ (if is_valid_date d then some d else none)
unfolding parse_date
parse_date-digits_of d y m n =
    simp digit-is_digit
      (rw (year_of_digits d.year y, pair_of_digits d.month m, pair_of_digits d.day n))

-- The pattern for due dates accepts every printed triple of numbers in range, and only those among
-- them that are dates parse: a due date can pass validation and still be no date.
pub due_date_regex-format_date :
    (d : Date)
    → d.year < 10000
    → d.month < 100
    → d.day < 100
    → (match_classes due_date_regex (format_date d) ≡ true)
      × (parse_date (format_date d) ≡ (if is_valid_date d then some d else none))
unfolding match_classes
due_date_regex-format_date d y m n =
    rw (format_date-eq-digits_of d y, parse_date-digits_of d y m n) (simp digit-is_digit, refl)
