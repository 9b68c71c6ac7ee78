-- ===== src/Tasks/Validate/Limits.antt =====
-- What validateTasks of tasks/validate.go accepts.
use echolist_backend.Base.{
  ℕ, ◌≤◌, Bool, true, ◌&&◌, not, List, [], ◌∷◌, length, ltb, All, if◌then◌else◌, Bytes, str_eq,
  str_eq_iff, ◌≡◌, ◌≢◌, ◌↔◌, ◌⊎◌, refl, arith,
}
use echolist_backend.Base.Action.{ok, err}
use echolist_backend.Common.Errors.{Check, Message}
use echolist_backend.Common.Names.{validate_content_length}
use echolist_backend.Common.Uuid.{match_classes}
use echolist_backend.Tasks.Types.{SubTask, MainTask}
use echolist_backend.Tasks.Validate.{
  due_date_regex, ◌also◌, reject, validate_rrule, validate_sub_tasks, validate_task, validate_each,
  validate_tasks,
}

abbrev pub IsShort : SubTask → Type 0
IsShort s = length s.description ≤ 1024

-- The rules for one task: sizes, a due date of the form YYYY-MM-DD or none, and with a recurrence
-- a due date and a rule that parses.
abbrev pub IsAcceptable : (Bytes → Bool) → MainTask → Type 0
IsAcceptable parses t =
    (length t.description ≤ 1024)
    × (length t.sub_tasks ≤ 100)
    × All IsShort t.sub_tasks
    × ((t.due_date ≡ []) ⊎ (match_classes due_date_regex t.due_date ≡ true))
    × ((t.recurrence ≡ []) ⊎ ((t.due_date ≢ []) × (parses t.recurrence ≡ true)))

validate_sub_tasks_iff : (ss : List SubTask) → (validate_sub_tasks ss ≡ ok tt) ↔ All IsShort ss
unfolding validate_sub_tasks
validate_sub_tasks_iff [] = ground arith
validate_sub_tasks_iff (s ∷ ss) = ground (arith, validate_sub_tasks_iff ss)

also_iff : (a b : Check) → ((a also b) ≡ ok tt) ↔ ((a ≡ ok tt) × (b ≡ ok tt))
also_iff (ok u) b = (λ h. (refl, h), λ h. h.1)
also_iff (err e) b = ground arith

length_iff :
    (text : Bytes) (max : ℕ) → (validate_content_length text max ≡ ok tt) ↔ (length text ≤ max)
unfolding validate_content_length
length_iff text max = ground arith

count_iff : (n max : ℕ) (m : Message) → (reject (ltb max n) m ≡ ok tt) ↔ (n ≤ max)
count_iff n max m = ground arith

due_date_iff :
    (due : Bytes) (m : Message)
    → (reject (not (str_eq due []) && not (match_classes due_date_regex due)) m ≡ ok tt)
      ↔ ((due ≡ []) ⊎ (match_classes due_date_regex due ≡ true))
due_date_iff due m = ground (arith, str_eq_iff due [])

module _ (parses : Bytes → Bool) where
  recurrence_iff :
      (due rule : Bytes) (m : Message)
      → ((if str_eq rule []
            then ok tt
            else (reject (str_eq due []) m also validate_rrule parses rule))
          ≡ ok tt)
        ↔ ((rule ≡ []) ⊎ ((due ≢ []) × (parses rule ≡ true)))
  recurrence_iff due rule m = ground (arith, str_eq_iff due [], str_eq_iff rule [])

  validate_task_iff : (t : MainTask) → (validate_task parses t ≡ ok tt) ↔ IsAcceptable parses t
  unfolding validate_task
  validate_task_iff t = (
    λ h.
        let (h4, rule) = (also_iff _ _).0 h in
        let (h3, due) = (also_iff _ _).0 h4 in
        let (h2, subs) = (also_iff _ _).0 h3 in
        let (text, few) = (also_iff _ _).0 h2 in
        (
          (length_iff _ _).0 text,
          (count_iff _ _ _).0 few,
          (validate_sub_tasks_iff t.sub_tasks).0 subs,
          (due_date_iff t.due_date _).0 due,
          (recurrence_iff t.due_date t.recurrence _).0 rule,
        ),
    λ (text, few, subs, due, rule). (also_iff _ _).1 (
      (also_iff _ _).1 (
        (also_iff _ _).1 (
          (also_iff _ _).1 ((length_iff _ _).1 text, (count_iff _ _ _).1 few),
          (validate_sub_tasks_iff t.sub_tasks).1 subs,
        ),
        (due_date_iff t.due_date _).1 due,
      ),
      (recurrence_iff t.due_date t.recurrence _).1 rule,
    ),
  )

  validate_each_iff :
      (ts : List MainTask) → (validate_each parses ts ≡ ok tt) ↔ All (IsAcceptable parses) ts
  unfolding validate_each
  validate_each_iff [] = ground arith
  validate_each_iff (t ∷ ts) = (
    λ h.
        let (one, others) = (also_iff (validate_task parses t) (validate_each parses ts)).0 h in
        ((validate_task_iff t).0 one, (validate_each_iff ts).0 others),
    λ h. (also_iff _ _).1 ((validate_task_iff t).1 h.0, (validate_each_iff ts).1 h.1),
  )

  pub validate_tasks_iff :
      (ts : List MainTask)
      → (validate_tasks parses ts ≡ ok tt) ↔ ((length ts ≤ 1000) × All (IsAcceptable parses) ts)
  unfolding validate_tasks
  validate_tasks_iff ts = (
    λ h.
        let (few, each) = (also_iff _ (validate_each parses ts)).0 h in
        ((count_iff _ _ _).0 few, (validate_each_iff ts).0 each),
    λ h. (also_iff _ _).1 ((count_iff _ _ _).1 h.0, (validate_each_iff ts).1 h.1),
  )
