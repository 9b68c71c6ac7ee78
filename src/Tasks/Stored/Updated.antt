-- ===== src/Tasks/Stored/Updated.antt =====
-- UpdateTaskList and GetTaskList of database/task_lists.go, one after the other.
use mathlib.Core.List.{map-append}
use mathlib.Core.Path.{subst}
use echolist_backend.Base.{
  Bool, true, false, some, List, [], ◌∷◌, ◌++◌, map, select, find_first, All, All-map, Bytes,
  str_eq, str_eq_iff, ◌≡◌, refl, sym, ap, ◌∙◌, arith, if◌then◌else◌,
}
use echolist_backend.Base.Action.{ok}
use echolist_backend.Database.Types.{
  TaskListColumns, TaskColumns, TaskListRow, TaskRow, UpdateTaskListParams, Tables,
}
use echolist_backend.Database.Conn.{Conn}
use echolist_backend.Database.Sql.{task_ids, order_by, delete_tasks}
use echolist_backend.Database.Sql.Keys.{Unique}
use echolist_backend.Database.Sql.Cascade.{delete_tasks-All, delete_tasks-ParentsPresent}
use echolist_backend.Database.Helpers.{
  int_to_bool, bool_to_int, scan_task, scan_list, in_list, of_task_list, task_le,
}
use echolist_backend.Database.TaskLists.{
  update_task_list, set_list_columns, get_task_list, list_with_id,
}
use echolist_backend.Database.Integrity.{IsIntegral}
use echolist_backend.Database.Integrity.Calls.{update_task_list-Preserves}
use echolist_backend.Tasks.Types.{MainTask}
use echolist_backend.Tasks.Server.{main_task_params}
use echolist_backend.Tasks.Convert.{task_rows_to_main_tasks}
use echolist_backend.Tasks.Stored.{stored_rows}
use echolist_backend.Tasks.Stored.Selected.{stored_rows-of_task_list}
use echolist_backend.Tasks.Stored.ReadBack.{queried, queried-read}
use echolist_backend.Tasks.Stored.RoundTrip.{
  quiet, get_task_list-found, stored_rows-Unique, Unique-right,
}
use echolist_backend.Tasks.Stored.Rewritten.{with_update, updated_row, update_task_list-Updates}

find_first-map :
    (params : UpdateTaskListParams) (ls : List TaskListColumns) (l : TaskListColumns)
    → find_first (list_with_id params.id) ls ≡ some l
    → find_first (list_with_id params.id) (map (set_list_columns params) ls)
      ≡ some (set_list_columns params l)
find_first-map params [] l h = ground arith
find_first-map params (k ∷ ls) l h = ground (arith, find_first-map params ls l)

find_first-passes :
    (id : Bytes) (ls : List TaskListColumns) (l : TaskListColumns)
    → find_first (list_with_id id) ls ≡ some l
    → str_eq l.id id ≡ true
find_first-passes id [] l h = ground arith
find_first-passes id (k ∷ ls) l h = ground (arith, find_first-passes id ls l)

flag : (b : Bool) → int_to_bool (bool_to_int b) ≡ b
flag true = refl
flag false = refl

set_columns-row :
    (params : UpdateTaskListParams) (l : TaskListColumns)
    → str_eq l.id params.id ≡ true
    → scan_list (set_list_columns params l) ≡ updated_row params (scan_list l)
set_columns-row params l h =
    ap
      (λ b. scan_list (
        if b
        then record l {
          title = params.title;
          is_auto_delete = bool_to_int params.is_auto_delete;
          updated_at = params.updated_at;
        }
        else l))
      h
    ∙ ap (λ b. record (updated_row params (scan_list l)) { is_auto_delete = b })
        (flag params.is_auto_delete)

-- Once the tasks of the list are deleted, no row is in the list.
rest-in_list :
    (id : Bytes) (rows : List TaskColumns)
    → All (λ r. in_list id r ≡ false) (delete_tasks (of_task_list id rows) rows)
unfolding of_task_list
rest-in_list id rows =
    All-map (delete_tasks (of_task_list id rows) rows) (λ r h. ground arith)
      (delete_tasks-All (of_task_list id rows) rows)

get_task_list-with_update :
    (params : UpdateTaskListParams) (ts : List MainTask) (t : Tables) (l : TaskListColumns)
    → find_first (list_with_id params.id) t.task_lists ≡ some l
    → IsIntegral t
    → IsIntegral (with_update params ts t)
    → (get_task_list params.id (quiet (with_update params ts t)) ≡ (
      ok (updated_row params (scan_list l), queried params.id ts),
      quiet (with_update params ts t),
    ))
      × (task_rows_to_main_tasks (queried params.id ts) ≡ ts)
get_task_list-with_update params ts t l here i i' =
    let rows = stored_rows params.id 0 ts in
    let old = delete_tasks (of_task_list params.id t.tasks) t.tasks in
    let keys = subst Unique (map-append (λ (r : TaskColumns). r.id) old rows) i'.task_keys in
    let selected =
      stored_rows-of_task_list params.id old ts (rest-in_list params.id t.tasks)
        (delete_tasks-ParentsPresent (of_task_list params.id t.tasks) t.tasks i.parents_present)
        keys in
    (
      get_task_list-found params.id (with_update params ts t) (set_list_columns params l)
            (find_first-map params t.task_lists l here)
          ∙ ap
              (λ row. (
                ok (
                  row,
                  map scan_task (
                      order_by task_le
                        (select (of_task_list params.id (old ++ rows)) (old ++ rows))),
                ),
                quiet (with_update params ts t),
              ))
              (set_columns-row params l (find_first-passes params.id t.task_lists l here))
          ∙ ap
              (λ sel. (
                ok (updated_row params (scan_list l), map scan_task (order_by task_le sel)),
                quiet (with_update params ts t),
              ))
              selected,
      queried-read params.id ts
          (stored_rows-Unique params.id ts (Unique-right (task_ids old) (task_ids rows) keys)),
    )

pub update_task_list-get_task_list :
    (params : UpdateTaskListParams) (ts : List MainTask) (c c' : Conn)
    (r : TaskListRow × List TaskRow)
    → params.tasks ≡ main_task_params ts
    → IsIntegral c.tables
    → update_task_list params c ≡ (ok r, c')
    → (rows : List TaskRow) × (get_task_list params.id (quiet c'.tables)
        ≡ (ok (r.0, rows), quiet c'.tables))
      × (task_rows_to_main_tasks rows ≡ ts)
      × (r.0.id ≡ params.id)
      × (r.0.title ≡ params.title)
      × (r.0.is_auto_delete ≡ params.is_auto_delete)
update_task_list-get_task_list params ts c c' r same i h =
    let (row, made, (l, here, answer, after)) = update_task_list-Updates params ts c c' r same h in
    let kept = subst (λ o. IsIntegral o.1.tables) h ((update_task_list-Preserves params).at c i) in
    let (got, back) =
      get_task_list-with_update params ts c.tables l here i (subst IsIntegral after kept) in
    let shown = sym (made ∙ ap (updated_row params) answer) in
    (
      queried params.id ts,
      subst (λ t. get_task_list params.id (quiet t) ≡ (ok (r.0, queried params.id ts), quiet t))
          (sym after)
          (got
            ∙ ap (λ x. (ok (x, queried params.id ts), quiet (with_update params ts c.tables)))
                shown),
      back,
      ap (λ x. x.id) (made ∙ ap (updated_row params) answer)
          ∙ (str_eq_iff l.id params.id).0 (find_first-passes params.id c.tables.task_lists l here),
      ap (λ x. x.title) made,
      ap (λ x. x.is_auto_delete) made,
    )
