-- ===== src/Tasks/Recurrence/Revalidated.antt =====
-- What advanceRecurringTasks of tasks/update_task_list.go makes of a request that validateTasks of
-- tasks/validate.go has accepted.
use mathlib.Core.Path.{subst}
use echolist_backend.Base.{
  suc, ◌<◌, true, some, List, [], ◌∷◌, length, All, Bytes, ◌≡◌, ◌≢◌, ◌⊎◌, inl, inr, refl, sym, ap,
  ◌∙◌, arith,
}
use echolist_backend.Base.Action.{ok}
use echolist_backend.Common.Uuid.{match_classes}
use echolist_backend.Tasks.Types.{MainTask}
use echolist_backend.Tasks.Validate.{due_date_regex, validate_tasks}
use echolist_backend.Tasks.Validate.Limits.{IsAcceptable, validate_tasks_iff}
use echolist_backend.Tasks.Recurrence.{
  RRuleLib, Date, is_valid_date, format_date, parses, advance_recurring_tasks,
}
use echolist_backend.Tasks.Recurrence.Dates.{due_date_regex-format_date, valid_bounds}
use echolist_backend.Tasks.Recurrence.Newly.{IsNext}
use echolist_backend.Tasks.Recurrence.Advance.{Advanced, AllAdvanced, advance_recurring_tasks_lem}

-- An occurrence is a date of the calendar, before the year 10000, where the library stops.
pub record CalendarLaws (lib : RRuleLib) : Type 0 where
  pub after_valid :
      {rule : lib.Rule} {date next : Date}
      → lib.after rule date ≡ some next
      → (is_valid_date next ≡ true) × (next.year < 10000)

matched-nonempty : (s : Bytes) → match_classes due_date_regex s ≡ true → s ≢ []
unfolding match_classes
matched-nonempty s h e = let h' = ap (match_classes due_date_regex) (sym e) ∙ h in ground arith

module _ (lib : RRuleLib) (laws : CalendarLaws lib) (existing : List MainTask) where
  next_valid :
      (t : MainTask) (date next : Date)
      → IsNext lib t.recurrence date next
      → (is_valid_date next ≡ true) × (next.year < 10000)
  next_valid t date next (rule, e, inl (o, found)) = laws.after_valid found
  next_valid t date next (rule, e, inr (o, found)) = laws.after_valid found

  still :
      (t : MainTask) (due : Bytes)
      → match_classes due_date_regex due ≡ true
      → (t.recurrence ≡ []) ⊎ ((t.due_date ≢ []) × (parses lib t.recurrence ≡ true))
      → (t.recurrence ≡ []) ⊎ ((due ≢ []) × (parses lib t.recurrence ≡ true))
  still t due matched (inl none) = inl none
  still t due matched (inr (there, parsed)) = inr (matched-nonempty due matched, parsed)

  Advanced-IsAcceptable :
      (t t' : MainTask)
      → IsAcceptable (parses lib) t
      → Advanced lib existing t t'
      → IsAcceptable (parses lib) t'
  Advanced-IsAcceptable t t' h (inl (old, same)) = subst (IsAcceptable (parses lib)) (sym same) h
  Advanced-IsAcceptable t t' h (inr (new, (date, next, parsed, found, same))) =
      let (text, few, subs, due, rule) = h in
      let (valid, before) = next_valid t date next found in
      let (m, n) = valid_bounds next valid in
      let matched = (due_date_regex-format_date next before m n).0 in
      subst (IsAcceptable (parses lib)) (sym same)
        (text, few, subs, inr matched, still t (format_date next) matched rule)

  AllAdvanced-IsAcceptable :
      (ts ts' : List MainTask)
      → All (IsAcceptable (parses lib)) ts
      → AllAdvanced lib existing ts ts'
      → (length ts' ≡ length ts) × All (IsAcceptable (parses lib)) ts'
  AllAdvanced-IsAcceptable [] [] h a = (refl, tt)
  AllAdvanced-IsAcceptable [] (t' ∷ ts') h a = absurd a
  AllAdvanced-IsAcceptable (t ∷ ts) [] h a = absurd a
  AllAdvanced-IsAcceptable (t ∷ ts) (t' ∷ ts') h a =
      let (same, others) = AllAdvanced-IsAcceptable ts ts' h.1 a.1 in
      (ap (λ n. suc n) same, (Advanced-IsAcceptable t t' h.0 a.0, others))

  -- Whatever tasks existed: if the recurrence library finds only dates of the calendar before the
  -- year 10000, then the tasks that advanceRecurringTasks returns for a list that validateTasks
  -- accepts are accepted by it again.
  pub advance_recurring_tasks-validate_tasks :
      (ts ts' : List MainTask)
      → validate_tasks (parses lib) ts ≡ ok tt
      → advance_recurring_tasks lib existing ts ≡ some ts'
      → validate_tasks (parses lib) ts' ≡ ok tt
  advance_recurring_tasks-validate_tasks ts ts' accepted advanced =
      let (few, each) = (validate_tasks_iff (parses lib) ts).0 accepted in
      let (same, each') =
        AllAdvanced-IsAcceptable ts ts' each
          ((advance_recurring_tasks_lem lib existing ts ts').0 advanced).0 in
      (validate_tasks_iff (parses lib) ts').1 (omega (arith, few, same), each')
