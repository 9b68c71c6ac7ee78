-- ===== src/Tasks/Recurrence/AutoDelete.antt =====
-- What filterAutoDeleted of tasks/update_task_list.go leaves.
use echolist_backend.Base.{
  Bool, true, false, not, if◌then◌else◌, List, [], ◌∷◌, select, All, ◌≡◌, ◌≢◌, ◌↔◌, ◌⊎◌, refl,
  arith, select-All, str_eq_iff,
}
use mathlib.Core.Path.{subst}
use echolist_backend.Tasks.Types.{SubTask, MainTask}
use echolist_backend.Tasks.Recurrence.{auto_deleted, filter_auto_deleted}

-- Open or recurring, and every subtask open.
abbrev pub IsKept : MainTask → Type 0
IsKept t = (auto_deleted t ≡ false) × All (λ s. not s.is_done ≡ true) t.sub_tasks

select_idem :
    (ss : List SubTask)
    → All (λ (s : SubTask). not s.is_done ≡ true) ss
    → select (λ (s : SubTask). not s.is_done) ss ≡ ss
select_idem [] h = refl
select_idem (s ∷ ss) h = ground (arith, select_idem ss)

filter_auto_deleted-All : (ts : List MainTask) → All IsKept (filter_auto_deleted ts)
unfolding filter_auto_deleted
filter_auto_deleted-All [] = tt
filter_auto_deleted-All (t ∷ ts) =
    ground
      (arith, filter_auto_deleted-All ts, select-All (λ (s : SubTask). not s.is_done) t.sub_tasks)

filter_auto_deleted_kept : (ts : List MainTask) → All IsKept ts → filter_auto_deleted ts ≡ ts
unfolding filter_auto_deleted
filter_auto_deleted_kept [] h = refl
filter_auto_deleted_kept (t ∷ ts) h =
    ground (arith, filter_auto_deleted_kept ts, select_idem t.sub_tasks)

-- The open subtasks, in their order.
pub data OpenOnes : List SubTask → List SubTask → Type 0 where
  no_more : OpenOnes [] []
  is_open :
      {s : SubTask} {ss ss' : List SubTask}
      → s.is_done ≡ false
      → OpenOnes ss ss'
      → OpenOnes (s ∷ ss) (s ∷ ss')
  is_closed :
      {s : SubTask} {ss ss' : List SubTask}
      → s.is_done ≡ true
      → OpenOnes ss ss'
      → OpenOnes (s ∷ ss) ss'

-- What is left of a list: a task that is done and does not recur goes, every other one stays in its
-- place, with its open subtasks.
pub data Leaves : List MainTask → List MainTask → Type 0 where
  at_end : Leaves [] []
  goes :
      {t : MainTask} {ts ts' : List MainTask}
      → t.is_done ≡ true
      → t.recurrence ≡ []
      → Leaves ts ts'
      → Leaves (t ∷ ts) ts'
  stays :
      {t : MainTask} {ts ts' : List MainTask} {ss : List SubTask}
      → (t.is_done ≡ false) ⊎ (t.recurrence ≢ [])
      → OpenOnes t.sub_tasks ss
      → Leaves ts ts'
      → Leaves (t ∷ ts) (record t { sub_tasks = ss } ∷ ts')

select-OpenOnes : (ss : List SubTask) → OpenOnes ss (select (λ (s : SubTask). not s.is_done) ss)
select-OpenOnes [] = no_more
select-OpenOnes (s ∷ ss) = go s.is_done refl (select-OpenOnes ss)
  where
    go :
        (b : Bool)
        → s.is_done ≡ b
        → OpenOnes ss (select (λ (s : SubTask). not s.is_done) ss)
        → OpenOnes (s ∷ ss) (
            if not b
            then s ∷ select (λ (s : SubTask). not s.is_done) ss
            else select (λ (s : SubTask). not s.is_done) ss)
    go true h rest = is_closed h rest
    go false h rest = is_open h rest

filter_auto_deleted-Leaves : (ts : List MainTask) → Leaves ts (filter_auto_deleted ts)
unfolding filter_auto_deleted
filter_auto_deleted-Leaves [] = at_end
filter_auto_deleted-Leaves (t ∷ ts) = go (auto_deleted t) refl (filter_auto_deleted-Leaves ts)
  where
    rest : List MainTask
    rest = filter_auto_deleted ts

    go :
        (b : Bool)
        → auto_deleted t ≡ b
        → Leaves ts rest
        → Leaves (t ∷ ts) (
            if b
            then rest
            else record t { sub_tasks = select (λ (s : SubTask). not s.is_done) t.sub_tasks }
              ∷ rest)
    go true h later = goes (ground arith) ((str_eq_iff t.recurrence []).0 (ground arith)) later
    go false h later =
        stays (ground (arith, str_eq_iff t.recurrence [])) (select-OpenOnes t.sub_tasks) later

-- The filter removes exactly the tasks that are done and do not recur. Every other task stays in its
-- place, with exactly its open subtasks in their order. Exactly the lists of open or recurring tasks
-- with open subtasks are left as they are, so filtering twice is filtering once.
pub filter_auto_deleted_exact :
    (ts : List MainTask)
    → Leaves ts (filter_auto_deleted ts)
      × All IsKept (filter_auto_deleted ts)
      × (All IsKept ts ↔ (filter_auto_deleted ts ≡ ts))
      × (filter_auto_deleted (filter_auto_deleted ts) ≡ filter_auto_deleted ts)
filter_auto_deleted_exact ts =
    let kept = filter_auto_deleted-All ts in
    (
      filter_auto_deleted-Leaves ts,
      kept,
      (filter_auto_deleted_kept ts, λ e. subst (All IsKept) e kept),
      filter_auto_deleted_kept (filter_auto_deleted ts) kept,
    )
