-- ===== src/Tasks/Recurrence.antt =====
-- advanceRecurringTasks and filterAutoDeleted of tasks/update_task_list.go, and
-- ComputeNextDueDate of tasks/rrule.go. Times occur only as dates at midnight UTC: parsed from
-- YYYY-MM-DD, handed to the recurrence library, and printed as YYYY-MM-DD.
pub mod Dates
pub mod Newly
pub mod Advance
pub mod AutoDelete
pub mod Revalidated
use echolist_backend.Base.{
  ℕ, zero, suc, ◌+◌, ◌-◌, ◌*◌, ◌/◌, ◌%◌, Bool, true, false, ◌&&◌, ◌||◌, not, Option, none, some,
  List, [], ◌∷◌, ◌++◌, select, leb, ltb, ◌==◌, if◌then◌else◌, Bytes, bytes, str_eq, contains_text,
}
use echolist_backend.Tasks.Types.{SubTask, MainTask}
use echolist_backend.Tasks.Validate.{is_digit}

pub record Date : Type 0 where
  pub year : ℕ
  pub month : ℕ
  pub day : ℕ

abbrev pub is_leap : ℕ → Bool
is_leap y = y % 4 == 0 && (not (y % 100 == 0) || y % 400 == 0)

abbrev pub days_in : ℕ → ℕ → ℕ
days_in month year =
    if month == 2
    then (if is_leap year then 29 else 28)
    else if month == 4 || month == 6 || month == 9 || month == 11
    then 30
    else 31

abbrev pub is_valid_date : Date → Bool
is_valid_date d =
    leb 1 d.month && leb d.month 12 && leb 1 d.day && leb d.day (days_in d.month d.year)

abbrev pub digit_value : ℕ → ℕ
digit_value c = c - b'0'

abbrev pub two_digits : ℕ → ℕ → ℕ
two_digits a b = digit_value a * 10 + digit_value b

-- time.Parse("2006-01-02", s)
unfoldable pub parse_date : Bytes → Option Date
parse_date (y1 ∷ y2 ∷ y3 ∷ y4 ∷ s1 ∷ m1 ∷ m2 ∷ s2 ∷ d1 ∷ d2 ∷ []) =
    let d : Date = record {
      year = two_digits y1 y2 * 100 + two_digits y3 y4;
      month = two_digits m1 m2;
      day = two_digits d1 d2;
    } in
    if is_digit y1
      && is_digit y2
      && is_digit y3
      && is_digit y4
      && s1 == b'-'
      && is_digit m1
      && is_digit m2
      && s2 == b'-'
      && is_digit d1
      && is_digit d2
      && is_valid_date d
    then some d
    else none
parse_date _ = none

abbrev pub digit : ℕ → ℕ
digit n = b'0' + n % 10

-- The decimal digits of a number, at most as many as the fuel.
abbrev pub decimal : ℕ → ℕ → Bytes
decimal zero n = []
decimal (suc fuel) n =
    let more = decimal fuel (n / 10) in if ltb n 10 then digit n ∷ [] else more ++ (digit n ∷ [])

-- A year takes four digits at least.
abbrev pub four_digits : ℕ → Bytes
four_digits y =
    if ltb y 10000
    then digit (y / 1000) ∷ digit (y / 100) ∷ digit (y / 10) ∷ digit y ∷ []
    else decimal y y

-- t.Format("2006-01-02")
unfoldable pub format_date : Date → Bytes
format_date d =
    four_digits d.year
    ++ (b'-' ∷ digit (d.month / 10) ∷ digit d.month ∷ b'-' ∷ digit (d.day / 10) ∷ digit d.day ∷ [])

-- github.com/teambition/rrule-go, which is not part of the program: parsing a rule, setting its
-- start, and its first occurrence after a date (`none` is the zero time).
pub record RRuleLib : Type 1 where
  pub Rule : Type 0
  pub str_to_rrule : Bytes → Option Rule
  pub dt_start : Date → Rule → Rule
  pub after : Rule → Date → Option Date

-- The map existingById: the last task with an id.
unfoldable pub existing_by_id : Bytes → List MainTask → Option MainTask
existing_by_id id [] = none
existing_by_id id (t ∷ ts) =
    let later = existing_by_id id ts in
    elim later [ some found ↦ some found | none ↦ if str_eq t.id id then some t else none ]

module _ (lib : RRuleLib) where
  abbrev pub parses : Bytes → Bool
  parses rule = elim (lib.str_to_rrule rule) [ none ↦ false | some r ↦ true ]

  -- `none` is an error.
  unfoldable pub compute_next_due_date : Bytes → Date → Option Date
  unfolding contains_text
  compute_next_due_date text date = elim (lib.str_to_rrule text) [
    | none ↦ none
    | some rule ↦
        lib.after
          (if not (contains_text (bytes "DTSTART") text) then lib.dt_start date rule else rule) date
  ]

  -- Is the task recurring, done, and not done before?
  unfoldable pub newly_done : List MainTask → MainTask → Bool
  unfolding existing_by_id
  newly_done existing t =
      not (str_eq t.recurrence [])
      && t.is_done
      && elim (existing_by_id t.id existing) [ none ↦ false | some prev ↦ not prev.is_done ]

  abbrev pub next_due_date : MainTask → Option Date
  next_due_date t = elim (parse_date t.due_date) [
    | none ↦ none
    | some d ↦ compute_next_due_date t.recurrence d
  ]

  -- The body of the loop; `none` is an error, which ends the loop.
  unfoldable pub advance_task : List MainTask → MainTask → Option MainTask
  unfolding newly_done parse_date compute_next_due_date format_date
  advance_task existing t =
      let advanced : Option MainTask = elim (next_due_date t) [
        | none ↦ none
        | some next ↦ some (record t { is_done = false; due_date = format_date next })
      ] in
      if newly_done existing t then advanced else some t

  unfoldable pub advance_recurring_tasks : List MainTask → List MainTask → Option (List MainTask)
  unfolding advance_task
  advance_recurring_tasks existing [] = some []
  advance_recurring_tasks existing (t ∷ ts) =
      let rest = advance_recurring_tasks existing ts in
      elim (advance_task existing t) [
        | none ↦ none
        | some t' ↦ elim rest [ none ↦ none | some ts' ↦ some (t' ∷ ts') ]
      ]

-- A done task that does not recur goes.
abbrev pub auto_deleted : MainTask → Bool
auto_deleted t = t.is_done && str_eq t.recurrence []

unfoldable pub filter_auto_deleted : List MainTask → List MainTask
filter_auto_deleted [] = []
filter_auto_deleted (t ∷ ts) =
    let rest = filter_auto_deleted ts in
    if auto_deleted t
    then rest
    else record t { sub_tasks = select (λ (s : SubTask). not s.is_done) t.sub_tasks } ∷ rest
