-- ===== src/Tasks/Validate.antt =====
-- tasks/validate.go and ValidateRRule of tasks/rrule.go.
pub mod Limits
use echolist_backend.Base.{
  ℕ, Bool, true, false, ◌&&◌, not, Option, none, some, List, [], ◌∷◌, length, leb, ltb,
  if◌then◌else◌, Bytes, str_eq,
}
use echolist_backend.Base.Action.{Result, ok, err}
use echolist_backend.Common.Errors.{
  Message, invalid_argument, new_error, Check, too_many_tasks, too_many_subtasks, due_date_format,
  due_date_required, invalid_recurrence,
}
use echolist_backend.Common.Names.{
  max_tasks_per_list, max_subtasks_per_task, max_task_description_bytes,
  max_subtask_description_bytes, validate_content_length,
}
use echolist_backend.Common.Uuid.{match_classes, repeated, is_byte}
use echolist_backend.Tasks.Types.{SubTask, MainTask}

abbrev pub is_digit : ℕ → Bool
is_digit c = leb b'0' c && leb c b'9'

-- ^\d{4}-\d{2}-\d{2}$
abbrev pub due_date_regex : List (ℕ → Bool)
due_date_regex =
    repeated 4 is_digit (is_byte b'-' ∷ repeated 2 is_digit (is_byte b'-' ∷ repeated 2 is_digit []))

-- The next check, if the one before returned nil.
infixl 5 ◌also◌
abbrev pub ◌also◌ : Check → Check → Check
ok u also next = next
err e also next = err e

abbrev pub reject : Bool → Message → Check
reject true message = err (new_error invalid_argument message)
reject false message = ok tt

unfoldable pub validate_sub_tasks : List SubTask → Check
unfolding validate_content_length
validate_sub_tasks [] = ok tt
validate_sub_tasks (s ∷ ss) =
    validate_content_length s.description max_subtask_description_bytes also validate_sub_tasks ss

-- rrule.StrToRRule is a parameter: does it accept the rule?
module _ (parses : Bytes → Bool) where
  abbrev pub validate_rrule : Bytes → Check
  validate_rrule rule = reject (not (parses rule)) invalid_recurrence

  -- The body of the loop over the tasks.
  unfoldable pub validate_task : MainTask → Check
  unfolding validate_content_length validate_sub_tasks match_classes
  validate_task t =
      validate_content_length t.description max_task_description_bytes
      also reject (ltb max_subtasks_per_task (length t.sub_tasks)) too_many_subtasks
      also validate_sub_tasks t.sub_tasks
      also reject (not (str_eq t.due_date []) && not (match_classes due_date_regex t.due_date))
          due_date_format
      also (if str_eq t.recurrence []
          then ok tt
          else (reject (str_eq t.due_date []) due_date_required also validate_rrule t.recurrence))

  unfoldable pub validate_each : List MainTask → Check
  unfolding validate_task
  validate_each [] = ok tt
  validate_each (t ∷ ts) = validate_task t also validate_each ts

  unfoldable pub validate_tasks : List MainTask → Check
  unfolding validate_each
  validate_tasks tasks =
      reject (ltb max_tasks_per_list (length tasks)) too_many_tasks also validate_each tasks
