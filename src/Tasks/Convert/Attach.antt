-- ===== src/Tasks/Convert/Attach.antt =====
-- taskRowsToMainTasks of tasks/task_server.go as a selection of rows for each task.
use mathlib.Core.List.{append_assoc, append-nil}
use echolist_backend.Base.{
  Bool, true, false, Option, none, some, List, [], ◌∷◌, ◌++◌, map, select, if◌then◌else◌, Bytes,
  str_eq, contains, str_eq_iff, ◌≡◌, refl, sym, ap, ◌∙◌, arith, Bool-cases, Option-cases, inl, inr,
}
use echolist_backend.Database.Types.{TaskRow}
use echolist_backend.Database.Sql.Keys.{Unique}
use echolist_backend.Tasks.Types.{SubTask, MainTask}
use echolist_backend.Tasks.Convert.{
  main_task_of, sub_task_of, main_tasks_of, has_main_task, attach, attach_all,
  task_rows_to_main_tasks,
}

abbrev pub main_ids : List MainTask → List Bytes
main_ids = map (λ (t : MainTask). t.id)

abbrev pub row_is_main : TaskRow → Bool
row_is_main r = elim r.task_list_id [ none ↦ false | some l ↦ true ]

abbrev pub row_is_below : Bytes → TaskRow → Bool
row_is_below k r = elim r.parent_task_id [ none ↦ false | some p ↦ str_eq p k ]

main_tasks_of-select :
    (rows : List TaskRow) → main_tasks_of rows ≡ map main_task_of (select row_is_main rows)
unfolding main_tasks_of
main_tasks_of-select [] = refl
main_tasks_of-select (r ∷ rows) = ground (arith, main_tasks_of-select rows)

has_main_task-contains :
    (k : Bytes) (ts : List MainTask) → has_main_task k ts ≡ contains (main_ids ts) k
unfolding has_main_task contains
has_main_task-contains k [] = refl
has_main_task-contains k (t ∷ ts) = ground (arith, has_main_task-contains k ts)

-- A subtask goes to the task that it names.
abbrev add : Bytes → SubTask → MainTask → MainTask
add p s t = if str_eq t.id p then record t { sub_tasks = t.sub_tasks ++ (s ∷ []) } else t

add-absent :
    (p : Bytes) (s : SubTask) (ts : List MainTask)
    → contains (main_ids ts) p ≡ false
    → map (add p s) ts ≡ ts
unfolding contains
add-absent p s [] h = refl
add-absent p s (t ∷ ts) h = ground (arith, add-absent p s ts)

attach-add :
    (p : Bytes) (s : SubTask) (ts : List MainTask)
    → Unique (main_ids ts)
    → attach p s ts ≡ map (add p s) ts
unfolding attach
attach-add p s [] u = refl
attach-add p s (t ∷ ts) u = ground (
  arith,
  has_main_task-contains p ts,
  attach-add p s ts u.1,
  add-absent p s ts,
  str_eq_iff t.id p,
  u.0,
)

add-ids : (p : Bytes) (s : SubTask) (ts : List MainTask) → main_ids (map (add p s) ts) ≡ main_ids ts
add-ids p s [] = refl
add-ids p s (t ∷ ts) = ground (arith, add-ids p s ts)

-- All subtasks of the rows that name the task.
abbrev pub gather : List TaskRow → MainTask → MainTask
gather rows t = record t {
  sub_tasks = t.sub_tasks ++ map sub_task_of (select (row_is_below t.id) rows);
}

gather-none : (t : MainTask) → gather [] t ≡ t
gather-none t = ap (λ ss. record t { sub_tasks = ss }) (append-nil t.sub_tasks)

str_eq-swap : (a b : Bytes) (c : Bool) → str_eq a b ≡ c → str_eq b a ≡ c
str_eq-swap a b true h = ground (arith, str_eq_iff a b, str_eq_iff b a)
str_eq-swap a b false h = ground (arith, str_eq_iff a b, str_eq_iff b a)

-- The text of `row_is_below` on a reference.
abbrev names : Bytes → Option Bytes → Bool
names k o = elim o [ none ↦ false | some p ↦ str_eq p k ]

abbrev gathered : TaskRow → List TaskRow → MainTask → Bool → MainTask
gathered r rows t b =
    let rest = select (row_is_below t.id) rows in
    record t { sub_tasks = t.sub_tasks ++ map sub_task_of (if b then r ∷ rest else rest) }

gather-cons :
    (r : TaskRow) (rows : List TaskRow) (t : MainTask) (o : Option Bytes)
    → r.parent_task_id ≡ o
    → gather (r ∷ rows) t ≡ gathered r rows t (names t.id o)
gather-cons r rows t o h = ap (λ q. gathered r rows t (names t.id q)) h

gather-add :
    (r : TaskRow) (p : Bytes) (rows : List TaskRow) (t : MainTask)
    → r.parent_task_id ≡ some p
    → gather rows (add p (sub_task_of r) t) ≡ gather (r ∷ rows) t
gather-add r p rows t h =
    let s = sub_task_of r in
    let rest = map sub_task_of (select (row_is_below t.id) rows) in
    let cons = gather-cons r rows t (some p) h in
    let choose = λ (b : Bool).
      gather rows (if b then record t { sub_tasks = t.sub_tasks ++ (s ∷ []) } else t) in
    elim (Bool-cases (str_eq t.id p)) [
      | inl same ↦
          ap choose same
          ∙ ap (λ ss. record t { sub_tasks = ss }) (append_assoc t.sub_tasks (s ∷ []) rest)
          ∙ sym (cons ∙ ap (gathered r rows t) (str_eq-swap t.id p true same))
      | inr other ↦
          ap choose other ∙ sym (cons ∙ ap (gathered r rows t) (str_eq-swap t.id p false other))
    ]

map-gather-none : (ts : List MainTask) → map (gather []) ts ≡ ts
map-gather-none [] = refl
map-gather-none (t ∷ ts) = ground (arith, gather-none t, map-gather-none ts)

map-gather-add :
    (r : TaskRow) (p : Bytes) (rows : List TaskRow) (ts : List MainTask)
    → r.parent_task_id ≡ some p
    → map (gather rows) (map (add p (sub_task_of r)) ts) ≡ map (gather (r ∷ rows)) ts
map-gather-add r p rows [] h = refl
map-gather-add r p rows (t ∷ ts) h =
    ap (λ u. u ∷ map (gather rows) (map (add p (sub_task_of r)) ts)) (gather-add r p rows t h)
    ∙ ap (λ us. gather (r ∷ rows) t ∷ us) (map-gather-add r p rows ts h)

map-gather-main :
    (r : TaskRow) (rows : List TaskRow) (ts : List MainTask)
    → r.parent_task_id ≡ none
    → map (gather rows) ts ≡ map (gather (r ∷ rows)) ts
map-gather-main r rows [] h = refl
map-gather-main r rows (t ∷ ts) h =
    ap (λ u. u ∷ map (gather rows) ts) (sym (gather-cons r rows t none h))
    ∙ ap (λ us. gather (r ∷ rows) t ∷ us) (map-gather-main r rows ts h)

abbrev attached : SubTask → List MainTask → Option Bytes → List MainTask
attached s ts o = elim o [ none ↦ ts | some p ↦ attach p s ts ]

attach_all-gather :
    (rows : List TaskRow) (ts : List MainTask)
    → Unique (main_ids ts)
    → attach_all rows ts ≡ map (gather rows) ts
unfolding attach_all
attach_all-gather [] ts u = sym (map-gather-none ts)
attach_all-gather (r ∷ rows) ts u =
    let s = sub_task_of r in
    let step = λ (o : Option Bytes). attach_all rows (attached s ts o) in
    elim (Option-cases r.parent_task_id) [
      | inl main ↦ ap step main ∙ attach_all-gather rows ts u ∙ map-gather-main r rows ts main
      | inr (p, below) ↦
          ap step below
          ∙ ap (attach_all rows) (attach-add p s ts u)
          ∙ attach_all-gather rows (map (add p s) ts) (rw add-ids u)
          ∙ map-gather-add r p rows ts below
    ]

-- The main tasks in order, each with the subtasks of the rows that name it, in order.
pub task_rows_to_main_tasks-gather :
    (rows : List TaskRow)
    → Unique (main_ids (map main_task_of (select row_is_main rows)))
    → task_rows_to_main_tasks rows ≡ map (gather rows) (map main_task_of (select row_is_main rows))
unfolding task_rows_to_main_tasks
task_rows_to_main_tasks-gather rows u =
    ap (attach_all rows) (main_tasks_of-select rows)
    ∙ attach_all-gather rows (map main_task_of (select row_is_main rows)) u
