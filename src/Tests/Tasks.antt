-- ===== src/Tests/Tasks.antt =====
-- Runs of package tasks, and its theorems at concrete inputs.
use mathlib.Core.Path.{subst}
use mathlib.Core.Option.{some-injective}
use echolist_backend.Base.{
  suc, str_eq, ◌<◌, Bool, true, false, none, some, [], ◌∷◌, All, bytes, ◌≡◌, ◌↔◌, refl, arith,
}
use echolist_backend.Base.Action.{ok}
use echolist_backend.Common.Uuid.{match_classes}
use echolist_backend.Tasks.Types.{MainTask}
use echolist_backend.Tasks.Validate.{due_date_regex, validate_tasks}
use echolist_backend.Tasks.Recurrence.{
  Date, is_valid_date, RRuleLib, parses, parse_date, format_date, advance_recurring_tasks,
  filter_auto_deleted,
}
use echolist_backend.Tasks.Recurrence.Dates.{due_date_regex-format_date}
use echolist_backend.Tasks.Recurrence.Revalidated.{
  CalendarLaws, advance_recurring_tasks-validate_tasks,
}
use echolist_backend.Tasks.Recurrence.AutoDelete.{IsKept, Leaves, filter_auto_deleted_exact}

-- A recurrence library that knows one rule: the next day of the month.
abbrev next_day : RRuleLib
next_day = record {
  Rule = Unit {0};
  str_to_rrule = λ text. some tt;
  dt_start = λ d r. r;
  after = λ r d. some (record d { day = suc d.day });
}

abbrev chore : Bool → MainTask
chore done = record {
  id = bytes "t1";
  description = bytes "water the plants";
  is_done = done;
  due_date = bytes "2024-02-28";
  recurrence = bytes "FREQ=DAILY";
  sub_tasks = [];
}

abbrev leap_day : Date
leap_day = record { year = 2024; month = 2; day = 29 }

abbrev no_day : Date
no_day = record { year = 2023; month = 2; day = 30 }

due_date_regex-format_date_example :
    (match_classes due_date_regex (format_date no_day) ≡ true)
    × (parse_date (format_date no_day) ≡ none)
due_date_regex-format_date_example =
    due_date_regex-format_date no_day (omega arith) (omega arith) (omega arith)

abbrev advanced : MainTask
advanced = record (chore true) { is_done = false; due_date = bytes "2024-02-29" }

one_day_on :
    advance_recurring_tasks next_day (chore false ∷ []) (chore true ∷ []) ≡ some (advanced ∷ [])
unfolding advance_recurring_tasks str_eq
one_day_on = refl

abbrev errand : MainTask
errand = record {
  id = bytes "t2";
  description = bytes "post office";
  is_done = true;
  due_date = [];
  recurrence = [];
  sub_tasks = [];
}

filter_auto_deleted_exact_example :
    Leaves (errand ∷ chore true ∷ []) (filter_auto_deleted (errand ∷ chore true ∷ []))
    × All IsKept (filter_auto_deleted (errand ∷ chore true ∷ []))
    × (All IsKept (errand ∷ chore true ∷ [])
        ↔ (filter_auto_deleted (errand ∷ chore true ∷ []) ≡ errand ∷ chore true ∷ []))
    × (filter_auto_deleted (filter_auto_deleted (errand ∷ chore true ∷ []))
        ≡ filter_auto_deleted (errand ∷ chore true ∷ []))
filter_auto_deleted_exact_example = filter_auto_deleted_exact (errand ∷ chore true ∷ [])

-- A recurrence library that knows one rule and one date.
abbrev every_leap_day : RRuleLib
every_leap_day = record {
  Rule = Unit {0};
  str_to_rrule = λ text. some tt;
  dt_start = λ d r. r;
  after = λ r d. some leap_day;
}

leap_day_valid : {d : Date} → some leap_day ≡ some d → (is_valid_date d ≡ true) × (d.year < 10000)
leap_day_valid {d} e =
    subst (λ (d : Date). (is_valid_date d ≡ true) × (d.year < 10000)) (some-injective leap_day d e)
      (refl, omega arith)

every_leap_day-CalendarLaws : CalendarLaws every_leap_day
every_leap_day-CalendarLaws = record { after_valid = λ e. leap_day_valid e }

leap_day_on :
    advance_recurring_tasks every_leap_day (chore false ∷ []) (chore true ∷ [])
    ≡ some (advanced ∷ [])
unfolding advance_recurring_tasks str_eq
leap_day_on = refl

chore_accepted : validate_tasks (parses every_leap_day) (chore true ∷ []) ≡ ok tt
unfolding validate_tasks str_eq match_classes
chore_accepted = refl

advance_recurring_tasks-validate_tasks_example :
    validate_tasks (parses every_leap_day) (advanced ∷ []) ≡ ok tt
advance_recurring_tasks-validate_tasks_example =
    advance_recurring_tasks-validate_tasks every_leap_day every_leap_day-CalendarLaws
      (chore false ∷ []) (chore true ∷ []) (advanced ∷ []) chore_accepted leap_day_on
