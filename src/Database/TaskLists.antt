-- ===== src/Database/TaskLists.antt =====
-- database/task_lists.go
use echolist_backend.Base.{
  Bool, ◌&&◌, none, some, List, [], ◌∷◌, map, select, find_first, length, leb, ltb, ◌==◌,
  if◌then◌else◌, Bytes, str_eq,
}
use echolist_backend.Base.Action.{ok, Action, pure, ◌>>=◌, ◌>>◌}
use echolist_backend.Database.Types.{
  TaskListColumns, TaskColumns, TaskListRow, TaskRow, CreateTaskListParams, UpdateTaskListParams,
}
use echolist_backend.Database.Conn.{Conn, DbError, exec, query, transaction}
use echolist_backend.Database.Sql.{refers, insert_list_row, delete_tasks, delete_lists, order_by}
use echolist_backend.Database.Notes.{found_row}
use echolist_backend.Database.Helpers.{
  bool_to_int, scan_task, scan_list, insert_task, insert_tasks, in_list, of_task_list, rank,
  query_tasks_by_task_list_id,
}

-- The body of the transaction of CreateTaskList.
abbrev pub create_list_rows : CreateTaskListParams → Action Conn DbError (List TaskRow)
create_list_rows params = do
  exec (
      insert_list_row (record {
        id = params.id;
        title = params.title;
        parent_dir = params.parent_dir;
        is_auto_delete = bool_to_int params.is_auto_delete;
        created_at = params.created_at;
        updated_at = params.updated_at;
      }))
  insert_tasks params.tasks (some params.id) none 0 []

unfoldable pub create_task_list :
    CreateTaskListParams → Action Conn DbError (TaskListRow × List TaskRow)
unfolding exec transaction insert_list_row insert_task
create_task_list params = do
  rows ← transaction (create_list_rows params)
  pure (
    record {
      id = params.id;
      title = params.title;
      parent_dir = params.parent_dir;
      is_auto_delete = params.is_auto_delete;
      created_at = params.created_at;
      updated_at = params.updated_at;
      total_task_count = 0;
      done_task_count = 0;
    },
    rows,
  )

abbrev pub list_with_id : Bytes → TaskListColumns → Bool
list_with_id id l = str_eq l.id id

unfoldable pub get_task_list : Bytes → Action Conn DbError (TaskListRow × List TaskRow)
unfolding query query_tasks_by_task_list_id
get_task_list id = do
  row ← query (λ t. find_first (list_with_id id) t.task_lists)
  l ← found_row row
  rows ← query_tasks_by_task_list_id id
  pure (scan_list l, rows)

abbrev pub set_list_columns : UpdateTaskListParams → TaskListColumns → TaskListColumns
set_list_columns params l =
    if str_eq l.id params.id
    then record l {
      title = params.title;
      is_auto_delete = bool_to_int params.is_auto_delete;
      updated_at = params.updated_at;
    }
    else l

-- The body of the transaction of UpdateTaskList.
unfoldable pub update_list_rows :
    UpdateTaskListParams → Action Conn DbError (TaskListRow × List TaskRow)
unfolding exec query insert_task delete_tasks of_task_list
update_list_rows params = do
  row ← query (λ t. find_first (list_with_id params.id) t.task_lists)
  l ← found_row row
  exec λ t. ok (tt, record t { task_lists = map (set_list_columns params) t.task_lists })
  exec λ t. ok (tt, record t { tasks = delete_tasks (of_task_list params.id t.tasks) t.tasks })
  rows ← insert_tasks params.tasks (some params.id) none 0 []
  pure (scan_list l, rows)

unfoldable pub update_task_list :
    UpdateTaskListParams → Action Conn DbError (TaskListRow × List TaskRow)
unfolding transaction update_list_rows
update_task_list params = do
  found ← transaction (update_list_rows params)
  pure (
    record (found.0) {
      title = params.title;
      is_auto_delete = params.is_auto_delete;
      updated_at = params.updated_at;
    },
    found.1,
  )

unfoldable pub delete_task_list : Bytes → Action Conn DbError Bool
unfolding exec delete_lists
delete_task_list id = do n ← exec (λ t. ok (delete_lists (list_with_id id) t)); pure (ltb 0 n)

-- The second loop of ListTaskLists, which fills the map from a list's id to its tasks.
unfoldable pub tasks_by_list : List TaskListRow → Action Conn DbError (List (Bytes × List TaskRow))
unfolding query_tasks_by_task_list_id
tasks_by_list [] = pure []
tasks_by_list (l ∷ ls) = do
  tasks ← query_tasks_by_task_list_id l.id
  rest ← tasks_by_list ls
  pure ((l.id, tasks) ∷ rest)

unfoldable pub list_task_lists :
    Bytes → Action Conn DbError (List TaskListRow × List (Bytes × List TaskRow))
unfolding query tasks_by_list
list_task_lists parent_dir = do
  lists ← query λ t. map scan_list (select (λ l. str_eq l.parent_dir parent_dir) t.task_lists)
  by_list ← tasks_by_list lists
  pure (lists, by_list)

-- id = ? AND task_list_id IS NOT NULL
abbrev pub main_task_with_id : Bytes → TaskColumns → Bool
main_task_with_id id r = str_eq r.id id && rank r == 0

unfoldable pub get_main_task : Bytes → Action Conn DbError (TaskRow × List TaskRow)
unfolding query order_by
get_main_task id = do
  row ← query (λ t. find_first (main_task_with_id id) t.tasks)
  main ← found_row row
  subs ← query λ t. map scan_task (
      order_by (λ a b. leb a.position b.position)
        (select (λ r. refers (id ∷ []) r.parent_task_id) t.tasks))
  pure (scan_task main, subs)

-- The row of the aggregate query for one list: the join reaches its main tasks.
unfoldable pub with_counts : List TaskColumns → TaskListColumns → TaskListRow
with_counts tasks l =
    let mine = select (in_list l.id) tasks in
    record (scan_list l) {
      total_task_count = length mine;
      done_task_count = length (select (λ (r : TaskColumns). r.is_done == 1) mine);
    }

unfoldable pub list_task_lists_with_counts : Bytes → Action Conn DbError (List TaskListRow)
unfolding query with_counts
list_task_lists_with_counts parent_dir =
    query λ t. map (with_counts t.tasks) (select (λ l. str_eq l.parent_dir parent_dir) t.task_lists)
