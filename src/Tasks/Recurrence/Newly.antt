-- ===== src/Tasks/Recurrence/Newly.antt =====
-- Which tasks advanceRecurringTasks of tasks/update_task_list.go advances, and to which date
-- ComputeNextDueDate of tasks/rrule.go takes them.
use echolist_backend.Base.{
  Bool, true, false, not, none, some, List, [], ◌∷◌, ◌++◌, All, Bytes, bytes, str_eq, str_eq_iff,
  contains_text, ◌≡◌, ◌≢◌, ◌↔◌, sym, ap, ◌∙◌, if◌then◌else◌, ◌⊎◌, inl, inr, Bool-cases,
  Option-cases, refl, arith,
}
use mathlib.Core.Option.{some-injective}
use echolist_backend.Base.Substrings.{Occurs, contains_text_iff}
use echolist_backend.Tasks.Types.{MainTask}
use echolist_backend.Tasks.Recurrence.{
  RRuleLib, Date, existing_by_id, newly_done, compute_next_due_date,
}

-- The last task of a list with an id.
abbrev pub LastOf : Bytes → List MainTask → MainTask → Type 0
LastOf id ts prev =
    (before : List MainTask) × (after : List MainTask) × (ts ≡ before ++ (prev ∷ after))
    × (prev.id ≡ id)
    × All (λ t. t.id ≢ id) after

-- A task that recurs and is done, and whose last version in the list before was open.
abbrev pub IsNewlyDone : List MainTask → MainTask → Type 0
IsNewlyDone existing t =
    (t.recurrence ≢ [])
    × (t.is_done ≡ true)
    × ((prev : MainTask) × LastOf t.id existing prev × (prev.is_done ≡ false))

-- What the library finds after a date for a rule; the rule starts at that date unless its text has
-- a start of its own.
abbrev pub IsNext : RRuleLib → Bytes → Date → Date → Type 0
IsNext lib text date next =
    (rule : lib.Rule) × (lib.str_to_rrule text ≡ some rule)
    × ((Occurs (bytes "DTSTART") text × (lib.after rule date ≡ some next))
        ⊎ ((¬ Occurs (bytes "DTSTART") text)
            × (lib.after (lib.dt_start date rule) date ≡ some next)))

later_found :
    (id : Bytes) (t found : MainTask) (ts : List MainTask)
    → existing_by_id id ts ≡ some found
    → existing_by_id id (t ∷ ts) ≡ some found
unfolding existing_by_id
later_found id t found ts e = rw e

none_later :
    (id : Bytes) (t : MainTask) (ts : List MainTask)
    → existing_by_id id ts ≡ none
    → existing_by_id id (t ∷ ts) ≡ (if str_eq t.id id then some t else none)
unfolding existing_by_id
none_later id t ts e = rw e

existing_by_id-none :
    (id : Bytes) (ts : List MainTask) → existing_by_id id ts ≡ none → All (λ t. t.id ≢ id) ts
unfolding existing_by_id
existing_by_id-none id [] h = tt
existing_by_id-none id (t ∷ ts) h = elim (Option-cases (existing_by_id id ts)) [
  | inr (found, e) ↦ let e' = later_found id t found ts e in absurd (ground arith)
  | inl e ↦
      let e' = none_later id t ts e in
      (λ same. let e2 = (str_eq_iff t.id id).1 same in ground arith, existing_by_id-none id ts e)
]

none-existing_by_id :
    (id : Bytes) (ts : List MainTask) → All (λ t. t.id ≢ id) ts → existing_by_id id ts ≡ none
unfolding existing_by_id
none-existing_by_id id [] h = refl
none-existing_by_id id (t ∷ ts) h =
    let e = none_later id t ts (none-existing_by_id id ts h.1) in ground (arith, str_eq_iff t.id id)

existing_by_id-LastOf :
    (id : Bytes) (ts : List MainTask) (prev : MainTask)
    → existing_by_id id ts ≡ some prev
    → LastOf id ts prev
unfolding existing_by_id
existing_by_id-LastOf id [] prev h = absurd (ground arith)
existing_by_id-LastOf id (t ∷ ts) prev h = elim (Option-cases (existing_by_id id ts)) [
  | inr (found, e) ↦
      let e' = later_found id t found ts e in
      let (before, after, split, same, last) = existing_by_id-LastOf id ts prev (e ∙ sym e' ∙ h) in
      (t ∷ before, after, ap (λ us. t ∷ us) split, same, last)
  | inl e ↦
      let (it, same) = itself (str_eq t.id id) refl (sym (none_later id t ts e) ∙ h) in
      ([], ts, ap (λ u. u ∷ ts) it, same, existing_by_id-none id ts e)
]
  where
    itself :
        (b : Bool)
        → str_eq t.id id ≡ b
        → (if b then some t else none) ≡ some prev
        → (t ≡ prev) × (prev.id ≡ id)
    itself true e q =
        let it = some-injective t prev q in
        (it, ap (λ (u : MainTask). u.id) (sym it) ∙ (str_eq_iff t.id id).0 e)
    itself false e q = absurd (ground arith)

LastOf-existing_by_id :
    (id : Bytes) (before after : List MainTask) (prev : MainTask)
    → prev.id ≡ id
    → All (λ t. t.id ≢ id) after
    → existing_by_id id (before ++ (prev ∷ after)) ≡ some prev
unfolding existing_by_id
LastOf-existing_by_id id [] after prev e h =
    none_later id prev after (none-existing_by_id id after h)
    ∙ ap (λ b. if b then some prev else none) ((str_eq_iff prev.id id).1 e)
LastOf-existing_by_id id (t ∷ before) after prev e h =
    later_found id t prev (before ++ (prev ∷ after))
      (LastOf-existing_by_id id before after prev e h)

existing_by_id_iff :
    (id : Bytes) (ts : List MainTask) (prev : MainTask)
    → (existing_by_id id ts ≡ some prev) ↔ LastOf id ts prev
existing_by_id_iff id ts prev = (
  existing_by_id-LastOf id ts prev,
  λ (before, after, split, same, last).
      ap (existing_by_id id) split ∙ LastOf-existing_by_id id before after prev same last,
)

module _ (lib : RRuleLib) where
  pub newly_done_iff :
      (existing : List MainTask) (t : MainTask)
      → (newly_done lib existing t ≡ true) ↔ IsNewlyDone existing t
  unfolding newly_done
  newly_done_iff existing t = (to, from)
    where
      to : newly_done lib existing t ≡ true → IsNewlyDone existing t
      to h = elim (Option-cases (existing_by_id t.id existing)) [
        | inl e ↦ absurd (ground arith)
        | inr (prev, e) ↦ (
          λ r. (let e' = (str_eq_iff t.recurrence []).1 r in ground arith),
          ground arith,
          (prev, (existing_by_id_iff t.id existing prev).0 e, ground arith),
        )
      ]

      from : IsNewlyDone existing t → newly_done lib existing t ≡ true
      from (recurs, done, (prev, last, was_open)) =
          let e = (existing_by_id_iff t.id existing prev).1 last in
          ground (arith, str_eq_iff t.recurrence [])

  -- Once the rule is known.
  with_rule :
      (text : Bytes) (date : Date) (rule : lib.Rule)
      → lib.str_to_rrule text ≡ some rule
      → compute_next_due_date lib text date
        ≡ lib.after
            (if not (contains_text (bytes "DTSTART") text) then lib.dt_start date rule else rule)
            date
  unfolding compute_next_due_date
  with_rule text date rule e = rw (compute_next_due_date, e)

  without_rule :
      (text : Bytes) (date : Date)
      → lib.str_to_rrule text ≡ none
      → compute_next_due_date lib text date ≡ none
  unfolding compute_next_due_date
  without_rule text date e = rw (compute_next_due_date, e)

  compute_next_due_date-IsNext :
      (text : Bytes) (date next : Date)
      → compute_next_due_date lib text date ≡ some next
      → IsNext lib text date next
  compute_next_due_date-IsNext text date next h = elim (Option-cases (lib.str_to_rrule text)) [
    | inl e ↦ absurd (let e' = without_rule text date e in ground arith)
    | inr (rule, e) ↦
        let e' = sym (with_rule text date rule e) ∙ h in
        (
          rule,
          e,
          elim (Bool-cases (contains_text (bytes "DTSTART") text)) [
            | inl b ↦ inl (
              (contains_text_iff (bytes "DTSTART") text).0 b,
              sym (ap (λ b. lib.after (if not b then lib.dt_start date rule else rule) date) b)
                  ∙ e',
            )
            | inr b ↦ inr (
              λ o. (let b' = (contains_text_iff (bytes "DTSTART") text).1 o in ground arith),
              sym (ap (λ b. lib.after (if not b then lib.dt_start date rule else rule) date) b)
                  ∙ e',
            )
          ],
        )
  ]

  IsNext-compute_next_due_date :
      (text : Bytes) (date next : Date)
      → IsNext lib text date next
      → compute_next_due_date lib text date ≡ some next
  IsNext-compute_next_due_date text date next (rule, e, inl (o, found)) =
      with_rule text date rule e
      ∙ ap (λ b. lib.after (if not b then lib.dt_start date rule else rule) date)
          ((contains_text_iff (bytes "DTSTART") text).1 o)
      ∙ found
  IsNext-compute_next_due_date text date next (rule, e, inr (o, found)) =
      with_rule text date rule e
      ∙ ap (λ b. lib.after (if not b then lib.dt_start date rule else rule) date) absent
      ∙ found
    where
      absent : contains_text (bytes "DTSTART") text ≡ false
      absent = elim (Bool-cases (contains_text (bytes "DTSTART") text)) [
        | inl b ↦ absurd (o ((contains_text_iff (bytes "DTSTART") text).0 b))
        | inr b ↦ b
      ]

  pub compute_next_due_date_iff :
      (text : Bytes) (date next : Date)
      → (compute_next_due_date lib text date ≡ some next) ↔ IsNext lib text date next
  compute_next_due_date_iff text date next =
      (compute_next_due_date-IsNext text date next, IsNext-compute_next_due_date text date next)
