-- ===== src/Database/Helpers.antt =====
-- database/helpers.go, and the scans of rows that database/task_lists.go shares
use echolist_backend.Base.{
  ℕ, ◌+◌, Bool, true, false, ◌||◌, not, Option, none, some, List, [], ◌∷◌, ◌++◌, map, select, leb,
  ltb, ◌==◌, if◌then◌else◌, Bytes,
}
use echolist_backend.Base.Action.{Action, pure, ◌>>=◌, ◌>>◌}
use echolist_backend.Database.Types.{
  TaskListColumns, TaskColumns, TaskListRow, TaskRow, CreateTaskParams, task_params, TaskParamsList,
  nil, cons,
}
use echolist_backend.Database.Conn.{Conn, DbError, exec, query}
use echolist_backend.Database.Sql.{task_ids, refers, insert_task_row, order_by, text_then}

abbrev pub bool_to_int : Bool → ℕ
bool_to_int true = 1
bool_to_int false = 0

-- Scan of an INTEGER column into a bool.
abbrev pub int_to_bool : ℕ → Bool
int_to_bool n = not (n == 0)

-- The scan of one row of tasks.
abbrev pub scan_task : TaskColumns → TaskRow
scan_task r = record {
  id = r.id;
  task_list_id = r.task_list_id;
  parent_task_id = r.parent_task_id;
  position = r.position;
  description = r.description;
  is_done = int_to_bool r.is_done;
  due_date = r.due_date;
  recurrence = r.recurrence;
}

-- The scan of one row of task_lists; the counts keep their zero value.
abbrev pub scan_list : TaskListColumns → TaskListRow
scan_list l = record {
  id = l.id;
  title = l.title;
  parent_dir = l.parent_dir;
  is_auto_delete = int_to_bool l.is_auto_delete;
  created_at = l.created_at;
  updated_at = l.updated_at;
  total_task_count = 0;
  done_task_count = 0;
}

-- The row that insertTask writes for a task, its subtasks aside.
abbrev pub task_columns :
    Bytes
    → Bytes
    → Bool
    → Option Bytes
    → Option Bytes
    → Option Bytes
    → Option Bytes
    → ℕ
    → TaskColumns
task_columns id description is_done due_date recurrence task_list_id parent_task_id position =
    record {
      id = id;
      task_list_id = task_list_id;
      parent_task_id = parent_task_id;
      position = position;
      description = description;
      is_done = bool_to_int is_done;
      due_date = due_date;
      recurrence = recurrence;
    }

-- insertTask, and the loop over a list of tasks from position `i` on. `rows` collects what was
-- inserted; after an error nobody reads it.
unfoldable mutual
  unfolding insert_task_row exec

  pub insert_task :
      CreateTaskParams
      → Option Bytes
      → Option Bytes
      → ℕ
      → List TaskRow
      → Action Conn DbError (List TaskRow)
  insert_task (task_params id description is_done due_date recurrence subs) list parent position
        rows =
      do
        let columns = task_columns id description is_done due_date recurrence list parent position
        exec (insert_task_row columns)
        insert_tasks subs none (some id) 0 (
            rows
            ++ (record {
              id = id;
              task_list_id = list;
              parent_task_id = parent;
              position = position;
              description = description;
              is_done = is_done;
              due_date = due_date;
              recurrence = recurrence;
            }
                ∷ []))

  pub insert_tasks :
      TaskParamsList
      → Option Bytes
      → Option Bytes
      → ℕ
      → List TaskRow
      → Action Conn DbError (List TaskRow)
  insert_tasks nil list parent i rows = pure rows
  insert_tasks (cons task tasks) list parent i rows = do
    rows' ← insert_task task list parent i rows
    insert_tasks tasks list parent (i + 1) rows'

abbrev pub in_list : Bytes → TaskColumns → Bool
in_list id r = refers (id ∷ []) r.task_list_id

-- WHERE task_list_id = ? OR parent_task_id IN (SELECT id FROM tasks WHERE task_list_id = ?)
unfoldable pub of_task_list : Bytes → List TaskColumns → TaskColumns → Bool
of_task_list id tasks r =
    in_list id r || refers (task_ids (select (in_list id) tasks)) r.parent_task_id

-- COALESCE(parent_task_id, task_list_id); both NULL sorts first, as an empty text does.
abbrev pub owner : TaskColumns → Bytes
owner r = elim r.parent_task_id [
  | some p ↦ p
  | none ↦ elim r.task_list_id [ some l ↦ l | none ↦ [] ]
]

abbrev pub rank : TaskColumns → ℕ
rank r = elim r.task_list_id [ some l ↦ 0 | none ↦ 1 ]

-- ORDER BY main tasks first, then the owner, then the position.
unfoldable pub task_le : TaskColumns → TaskColumns → Bool
task_le a b =
    if rank a == rank b
    then text_then (owner a) (owner b) (leb a.position b.position)
    else ltb (rank a) (rank b)

unfoldable pub query_tasks_by_task_list_id : Bytes → Action Conn DbError (List TaskRow)
unfolding query of_task_list task_le order_by
query_tasks_by_task_list_id id =
    query λ t. map scan_task (order_by task_le (select (of_task_list id t.tasks) t.tasks))
