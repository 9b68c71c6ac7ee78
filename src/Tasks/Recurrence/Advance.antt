-- ===== src/Tasks/Recurrence/Advance.antt =====
-- What advanceRecurringTasks of tasks/update_task_list.go does to the tasks of a request.
use echolist_backend.Base.{
  true, false, none, some, ◌↔◌, List, [], ◌∷◌, All, ◌≡◌, ◌⊎◌, inl, inr, Bool-cases, Option-cases,
  refl, arith,
}
use echolist_backend.Tasks.Types.{MainTask}
use echolist_backend.Tasks.Recurrence.Newly.{
  IsNewlyDone, IsNext, newly_done_iff, compute_next_due_date_iff,
}
use echolist_backend.Tasks.Recurrence.{
  parse_date, RRuleLib, Date, newly_done, next_due_date, format_date, advance_task,
  advance_recurring_tasks,
}

module _ (lib : RRuleLib) (existing : List MainTask) where
  newly_done-advance_task :
      (t t' : MainTask) → advance_task lib existing t ≡ some t' → newly_done lib existing t' ≡ false
  unfolding advance_task
  newly_done-advance_task t t' h = ground arith

  advance_task_settled :
      (t : MainTask) → newly_done lib existing t ≡ false → advance_task lib existing t ≡ some t
  unfolding advance_task
  advance_task_settled t h = ground arith

  -- The task of the request, unless it is newly done: then it is open again, and due at the next
  -- date of its rule after its due date.
  abbrev pub Advanced : MainTask → MainTask → Type 0
  Advanced t t' =
      ((¬ IsNewlyDone existing t) × (t' ≡ t))
      ⊎ (IsNewlyDone existing t
          × ((date : Date) × (next : Date) × (parse_date t.due_date ≡ some date)
              × IsNext lib t.recurrence date next
              × (t' ≡ record t { is_done = false; due_date = format_date next })))

  -- Position by position.
  abbrev pub AllAdvanced : List MainTask → List MainTask → Type 0
  AllAdvanced [] [] = Unit
  AllAdvanced [] (t' ∷ ts') = ⊥
  AllAdvanced (t ∷ ts) [] = ⊥
  AllAdvanced (t ∷ ts) (t' ∷ ts') = Advanced t t' × AllAdvanced ts ts'

  -- The next date of a task by the rule of the library.
  abbrev HasNext : MainTask → Date → Type 0
  HasNext t next =
      (date : Date) × (parse_date t.due_date ≡ some date) × IsNext lib t.recurrence date next

  next_due_date-HasNext :
      (t : MainTask) (next : Date) → next_due_date lib t ≡ some next → HasNext t next
  next_due_date-HasNext t next h = elim (Option-cases (parse_date t.due_date)) [
    | inl e ↦ absurd (ground arith)
    | inr (date, e) ↦
        (date, e, (compute_next_due_date_iff lib t.recurrence date next).0 (ground arith))
  ]

  HasNext-next_due_date :
      (t : MainTask) (next : Date) → HasNext t next → next_due_date lib t ≡ some next
  HasNext-next_due_date t next (date, e, found) =
      let e' = (compute_next_due_date_iff lib t.recurrence date next).1 found in
      rw (next_due_date, e) e'

  advance_task-Advanced : (t t' : MainTask) → advance_task lib existing t ≡ some t' → Advanced t t'
  unfolding advance_task
  advance_task-Advanced t t' h =
      Or_split (Bool-cases (newly_done lib existing t)) (Option-cases (next_due_date lib t))
    where
      Or_split :
          (newly_done lib existing t ≡ true) ⊎ (newly_done lib existing t ≡ false)
          → (next_due_date lib t ≡ none) ⊎ ((d : Date) × (next_due_date lib t ≡ some d))
          → Advanced t t'
      Or_split (inr settled) o =
          inl (λ new. (let e = (newly_done_iff lib existing t).1 new in ground arith), ground arith)
      Or_split (inl new) (inl none_next) = absurd (ground arith)
      Or_split (inl new) (inr (d, e)) =
          let (date, parsed, found) = next_due_date-HasNext t d e in
          inr ((newly_done_iff lib existing t).0 new, (date, d, parsed, found, ground arith))

  Advanced-advance_task : (t t' : MainTask) → Advanced t t' → advance_task lib existing t ≡ some t'
  unfolding advance_task
  Advanced-advance_task t t' (inl (old, same)) = elim (Bool-cases (newly_done lib existing t)) [
    | inl new ↦ absurd (old ((newly_done_iff lib existing t).0 new))
    | inr e ↦ ground arith
  ]
  Advanced-advance_task t t' (inr (new, (date, next, parsed, found, same))) =
      let e = HasNext-next_due_date t next (date, parsed, found) in
      let e' = (newly_done_iff lib existing t).1 new in ground arith

  advance_recurring_tasks-AllAdvanced :
      (ts ts' : List MainTask)
      → advance_recurring_tasks lib existing ts ≡ some ts'
      → AllAdvanced ts ts'
  unfolding advance_recurring_tasks
  advance_recurring_tasks-AllAdvanced [] [] h = tt
  advance_recurring_tasks-AllAdvanced [] (t' ∷ ts') h = absurd (ground arith)
  advance_recurring_tasks-AllAdvanced (t ∷ ts) [] h = absurd (ground arith)
  advance_recurring_tasks-AllAdvanced (t ∷ ts) (t' ∷ ts') h = (
    advance_task-Advanced t t' (ground arith),
    advance_recurring_tasks-AllAdvanced ts ts' (ground arith),
  )

  All-settled :
      (ts ts' : List MainTask)
      → advance_recurring_tasks lib existing ts ≡ some ts'
      → All (λ t. newly_done lib existing t ≡ false) ts'
  unfolding advance_recurring_tasks
  All-settled [] [] h = tt
  All-settled [] (t' ∷ ts') h = absurd (ground arith)
  All-settled (t ∷ ts) [] h = absurd (ground arith)
  All-settled (t ∷ ts) (t' ∷ ts') h =
      (newly_done-advance_task t t' (ground arith), All-settled ts ts' (ground arith))

  advance_recurring_tasks_settled :
      (ts : List MainTask)
      → All (λ t. newly_done lib existing t ≡ false) ts
      → advance_recurring_tasks lib existing ts ≡ some ts
  unfolding advance_recurring_tasks
  advance_recurring_tasks_settled [] h = refl
  advance_recurring_tasks_settled (t ∷ ts) h =
      ground (arith, advance_task_settled t, advance_recurring_tasks_settled ts)

  AllAdvanced-advance_recurring_tasks :
      (ts ts' : List MainTask)
      → AllAdvanced ts ts'
      → advance_recurring_tasks lib existing ts ≡ some ts'
  unfolding advance_recurring_tasks
  AllAdvanced-advance_recurring_tasks [] [] h = refl
  AllAdvanced-advance_recurring_tasks [] (t' ∷ ts') h = absurd h
  AllAdvanced-advance_recurring_tasks (t ∷ ts) [] h = absurd h
  AllAdvanced-advance_recurring_tasks (t ∷ ts) (t' ∷ ts') h =
      let one = Advanced-advance_task t t' h.0 in
      let others = AllAdvanced-advance_recurring_tasks ts ts' h.1 in ground arith

  pub advance_recurring_tasks_lem :
      (ts ts' : List MainTask)
      → (advance_recurring_tasks lib existing ts ≡ some ts')
        ↔ (AllAdvanced ts ts' × (advance_recurring_tasks lib existing ts' ≡ some ts'))
  advance_recurring_tasks_lem ts ts' = (
    λ h. (
      advance_recurring_tasks-AllAdvanced ts ts' h,
      advance_recurring_tasks_settled ts' (All-settled ts ts' h),
    ),
    λ h. AllAdvanced-advance_recurring_tasks ts ts' h.0,
  )
