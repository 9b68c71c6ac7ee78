-- ===== src/Tasks/Convert.antt =====
-- The conversions of tasks/task_server.go and tasks/get_main_task.go. A nil slice is the empty
-- list.
pub mod Attach
use echolist_backend.Base.{
  ℕ, Bool, true, false, Option, none, some, List, [], ◌∷◌, ◌++◌, map, if◌then◌else◌, Bytes, str_eq,
}
use echolist_backend.Database.Types.{TaskRow}
use echolist_backend.Tasks.Types.{SubTask, MainTask, PbSubTask, PbMainTask, PbTaskList}

abbrev pub sub_task_from_proto : PbSubTask → SubTask
sub_task_from_proto s = record { id = s.id; description = s.description; is_done = s.is_done }

unfoldable pub proto_to_subtasks : List PbSubTask → List SubTask
proto_to_subtasks = map sub_task_from_proto

unfoldable pub proto_to_main_tasks : List PbMainTask → List MainTask
unfolding proto_to_subtasks
proto_to_main_tasks = map λ (t : PbMainTask). record {
  id = t.id;
  description = t.description;
  is_done = t.is_done;
  due_date = t.due_date;
  recurrence = t.recurrence;
  sub_tasks = proto_to_subtasks t.sub_tasks;
}

abbrev pub sub_task_to_proto : SubTask → PbSubTask
sub_task_to_proto s = record { id = s.id; description = s.description; is_done = s.is_done }

unfoldable pub subtasks_to_proto : List SubTask → List PbSubTask
subtasks_to_proto = map sub_task_to_proto

unfoldable pub main_task_to_proto : MainTask → PbMainTask
unfolding subtasks_to_proto
main_task_to_proto t = record {
  id = t.id;
  description = t.description;
  is_done = t.is_done;
  due_date = t.due_date;
  recurrence = t.recurrence;
  sub_tasks = subtasks_to_proto t.sub_tasks;
}

unfoldable pub main_tasks_to_proto : List MainTask → List PbMainTask
unfolding main_task_to_proto
main_tasks_to_proto = map main_task_to_proto

unfoldable pub build_task_list : Bytes → Bytes → Bytes → List MainTask → ℕ → Bool → PbTaskList
unfolding main_tasks_to_proto
build_task_list id parent_dir title tasks updated_at is_auto_delete = record {
  id = id;
  parent_dir = parent_dir;
  title = title;
  tasks = main_tasks_to_proto tasks;
  updated_at = updated_at;
  is_auto_delete = is_auto_delete;
}

-- A nil *string leaves the field empty.
abbrev pub deref : Option Bytes → Bytes
deref none = []
deref (some s) = s

abbrev pub main_task_of : TaskRow → MainTask
main_task_of row = record {
  id = row.id;
  description = row.description;
  is_done = row.is_done;
  due_date = deref row.due_date;
  recurrence = deref row.recurrence;
  sub_tasks = [];
}

abbrev pub sub_task_of : TaskRow → SubTask
sub_task_of row = record { id = row.id; description = row.description; is_done = row.is_done }

-- The first pass: the main tasks in order.
unfoldable pub main_tasks_of : List TaskRow → List MainTask
main_tasks_of [] = []
main_tasks_of (row ∷ rows) =
    let rest = main_tasks_of rows in
    elim row.task_list_id [ none ↦ rest | some l ↦ main_task_of row ∷ rest ]

-- mainTaskMap: an id leads to the last main task that has it.
unfoldable pub has_main_task : Bytes → List MainTask → Bool
has_main_task id [] = false
has_main_task id (t ∷ ts) = let rest = has_main_task id ts in if str_eq t.id id then true else rest

-- result[mainTaskMap[parent]].SubTasks = append(...); nothing if the parent is not in the map.
unfoldable pub attach : Bytes → SubTask → List MainTask → List MainTask
unfolding has_main_task
attach parent sub [] = []
attach parent sub (t ∷ ts) =
    let rest = attach parent sub ts in
    if has_main_task parent ts
    then t ∷ rest
    else if str_eq t.id parent
    then record t { sub_tasks = t.sub_tasks ++ (sub ∷ []) } ∷ ts
    else t ∷ rest

abbrev attach_row : TaskRow → List MainTask → List MainTask
attach_row row result = elim row.parent_task_id [
  | none ↦ result
  | some parent ↦ attach parent (sub_task_of row) result
]

-- The second pass.
unfoldable pub attach_all : List TaskRow → List MainTask → List MainTask
unfolding attach
attach_all [] result = result
attach_all (row ∷ rows) result = attach_all rows (attach_row row result)

unfoldable pub task_rows_to_main_tasks : List TaskRow → List MainTask
unfolding main_tasks_of attach_all
task_rows_to_main_tasks rows = attach_all rows (main_tasks_of rows)

unfoldable pub single_task_row_to_main_task : TaskRow → List TaskRow → MainTask
single_task_row_to_main_task main_row sub_rows = record (main_task_of main_row) {
  sub_tasks = map sub_task_of sub_rows;
}
