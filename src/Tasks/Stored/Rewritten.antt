-- ===== src/Tasks/Stored/Rewritten.antt =====
-- What UpdateTaskList of database/task_lists.go writes and returns.
use mathlib.Core.Path.{subst}
use echolist_backend.Base.{
  Option, none, some, List, [], ◌++◌, map, find_first, ◌≡◌, refl, sym, ap, ◌∙◌, arith,
}
use echolist_backend.Base.Action.{ok, pure, ◌>>=◌, ◌>>◌, >>=-InTurn, pure-injective}
use echolist_backend.Database.Types.{
  TaskListColumns, TaskListRow, TaskRow, UpdateTaskListParams, Tables,
}
use echolist_backend.Database.Conn.{Conn, exec, query, transaction}
use echolist_backend.Database.Conn.Writes.{
  Writes, Writes-pure, Writes-exec, Writes-bind, query-ok, transaction-ok,
}
use echolist_backend.Database.Sql.{delete_tasks}
use echolist_backend.Database.Helpers.{scan_list, of_task_list, insert_tasks}
use echolist_backend.Database.Notes.{found_row}
use echolist_backend.Database.TaskLists.{
  update_task_list, update_list_rows, set_list_columns, list_with_id,
}
use echolist_backend.Tasks.Types.{MainTask}
use echolist_backend.Tasks.Server.{main_task_params}
use echolist_backend.Tasks.Stored.{stored_rows, with_tasks}
use echolist_backend.Tasks.Stored.Inserted.{main_tasks-Writes}

abbrev pub with_update : UpdateTaskListParams → List MainTask → Tables → Tables
with_update params ts t = record t {
  task_lists = map (set_list_columns params) t.task_lists;
  tasks = delete_tasks (of_task_list params.id t.tasks) t.tasks ++ stored_rows params.id 0 ts;
}

-- The row of the list that the call finds, and the result that it makes of it.
abbrev pub Updates : UpdateTaskListParams → List MainTask → Tables → TaskListRow → Tables → Type 0
Updates params ts t row t' =
    (l : TaskListColumns) × (find_first (list_with_id params.id) t.task_lists ≡ some l)
    × (row ≡ scan_list l)
    × (t' ≡ with_update params ts t)

written :
    (params : UpdateTaskListParams) (ts : List MainTask) (l : TaskListColumns)
    → params.tasks ≡ main_task_params ts
    → Writes {A = TaskListRow × List TaskRow}
        (λ r. r.0 ≡ scan_list l)
        (with_update params ts)
        (do
          exec λ t. ok (tt, record t { task_lists = map (set_list_columns params) t.task_lists })
          exec λ t.
              ok (tt, record t { tasks = delete_tasks (of_task_list params.id t.tasks) t.tasks })
          rows ← insert_tasks params.tasks (some params.id) none 0 []
          pure (scan_list l, rows))
written params ts l same =
    Writes-bind {V = λ u. Unit {0}}
      (λ t. record t { task_lists = map (set_list_columns params) t.task_lists })
      (λ t. record t {
        tasks = delete_tasks (of_task_list params.id t.tasks) t.tasks ++ stored_rows params.id 0 ts;
      })
      _ _ (Writes-exec _ _ (λ t b t' h. (tt, ground arith)))
      (λ u v.
        Writes-bind {V = λ u. Unit {0}}
          (λ t. record t { tasks = delete_tasks (of_task_list params.id t.tasks) t.tasks })
          (with_tasks (stored_rows params.id 0 ts)) _ _
          (Writes-exec _ _ (λ t b t' h. (tt, ground arith)))
          (λ u v.
            Writes-bind {V = λ u. Unit {0}} (with_tasks (stored_rows params.id 0 ts)) (λ t. t) _ _
              (rw same (main_tasks-Writes ts params.id 0 [])) (λ rows v. Writes-pure _ refl)))

found_row-ok :
    {A : Type 0} (o : Option A) (c : Conn) (a : A) (c' : Conn)
    → found_row o c ≡ (ok a, c')
    → (o ≡ some a) × (c ≡ c')
found_row-ok none c a c' h = ground arith
found_row-ok (some b) c a c' h = ground arith

update_list_rows-Updates :
    (params : UpdateTaskListParams) (ts : List MainTask) (c c' : Conn)
    (r : TaskListRow × List TaskRow)
    → params.tasks ≡ main_task_params ts
    → update_list_rows params c ≡ (ok r, c')
    → Updates params ts c.tables r.0 c'.tables
unfolding update_list_rows
update_list_rows-Updates params ts c c' r same h =
    let reading = λ (t : Tables). find_first (list_with_id params.id) t.task_lists in
    let (row, c1, asked, h1) = >>=-InTurn (query reading) _ c c' r h in
    let (read, tables1) = query-ok reading c row c1 asked in
    let (l, c2, found, h2) = >>=-InTurn (found_row row) _ c1 c' r h1 in
    let (here, stays) = found_row-ok row c1 l c2 found in
    let (answer, after) = (written params ts l same).at c2 r c' h2 in
    (
      l,
      sym read ∙ here,
      answer,
      after ∙ ap (with_update params ts) (ap (λ d. d.tables) (sym stays) ∙ tables1),
    )

-- The row that UpdateTaskList returns.
abbrev pub updated_row : UpdateTaskListParams → TaskListRow → TaskListRow
updated_row params row = record row {
  title = params.title;
  is_auto_delete = params.is_auto_delete;
  updated_at = params.updated_at;
}

pub update_task_list-Updates :
    (params : UpdateTaskListParams) (ts : List MainTask) (c c' : Conn)
    (r : TaskListRow × List TaskRow)
    → params.tasks ≡ main_task_params ts
    → update_task_list params c ≡ (ok r, c')
    → (row : TaskListRow) × (r.0 ≡ updated_row params row)
      × Updates params ts c.tables row c'.tables
unfolding update_task_list
update_task_list-Updates params ts c c' r same h =
    let (found, c3, ran, last) = >>=-InTurn (transaction (update_list_rows params)) _ c c' r h in
    let (c1, c2, begun, body, committed) =
      transaction-ok (update_list_rows params) c found c3 ran in
    let (made, left) = pure-injective _ r c3 c' last in
    let (l, here, answer, after) = update_list_rows-Updates params ts c1 c2 found same body in
    (
      found.0,
      ap (λ x. x.0) (sym made),
      (
        l,
        subst (λ t. find_first (list_with_id params.id) t.task_lists ≡ some l) begun here,
        answer,
        ap (λ d. d.tables) (sym left) ∙ committed ∙ after ∙ ap (with_update params ts) begun,
      ),
    )
