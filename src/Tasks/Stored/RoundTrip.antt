-- ===== src/Tasks/Stored/RoundTrip.antt =====
-- CreateTaskList and GetTaskList of database/task_lists.go, one after the other.
use mathlib.Core.List.{map-append}
use mathlib.Core.Path.{subst}
use echolist_backend.Base.{
  false, some, List, [], ◌∷◌, ◌++◌, map, select, find_first, Bytes, str_eq_refl, str_eq_iff,
  contains, contains-append, ◌≡◌, refl, sym, ap, ◌∙◌, arith,
}
use echolist_backend.Base.Action.{ok}
use echolist_backend.Database.Types.{
  TaskListColumns, TaskColumns, TaskListRow, TaskRow, CreateTaskListParams, Tables,
}
use echolist_backend.Database.Conn.{Conn}
use echolist_backend.Database.Sql.{list_ids, task_ids, order_by}
use echolist_backend.Database.Sql.Keys.{Unique, Unique-select}
use echolist_backend.Database.Helpers.{
  scan_task, scan_list, of_task_list, task_le, query_tasks_by_task_list_id,
}
use echolist_backend.Database.TaskLists.{create_task_list, get_task_list, list_with_id}
use echolist_backend.Database.Integrity.{IsIntegral}
use echolist_backend.Database.Integrity.Calls.{create_task_list-Preserves}
use echolist_backend.Tasks.Types.{MainTask}
use echolist_backend.Tasks.Server.{main_task_params}
use echolist_backend.Tasks.Convert.{task_rows_to_main_tasks}
use echolist_backend.Tasks.Convert.Attach.{main_ids}
use echolist_backend.Tasks.Stored.{stored_rows}
use echolist_backend.Tasks.Stored.Inserted.{
  list_row, created_row, with_list, create_task_list-Writes,
}
use echolist_backend.Tasks.Stored.Selected.{
  main_rows-ids, old_rows-in_list, stored_rows-of_task_list,
}
use echolist_backend.Tasks.Stored.Sorted.{is_main}
use echolist_backend.Tasks.Stored.ReadBack.{stored_rows-mains, queried, queried-read}

-- A connection on which no statement fails of itself.
abbrev pub quiet : Tables → Conn
quiet t = record { tables = t; faults = [] }

pub get_task_list-found :
    (id : Bytes) (t : Tables) (l : TaskListColumns)
    → find_first (list_with_id id) t.task_lists ≡ some l
    → get_task_list id (quiet t) ≡ (
      ok (scan_list l, map scan_task (order_by task_le (select (of_task_list id t.tasks) t.tasks))),
      quiet t,
    )
unfolding get_task_list query_tasks_by_task_list_id
get_task_list-found id t l h = ground arith

Unique-last : (ks : List Bytes) (k : Bytes) → Unique (ks ++ (k ∷ [])) → contains ks k ≡ false
unfolding contains
Unique-last [] k u = refl
Unique-last (j ∷ ks) k u =
    ground
      (arith, Unique-last ks k u.1, contains-append ks (k ∷ []) j, str_eq_iff j k, str_eq_refl k)

find_first-last :
    (l : TaskListColumns) (ls : List TaskListColumns)
    → contains (list_ids ls) l.id ≡ false
    → find_first (list_with_id l.id) (ls ++ (l ∷ [])) ≡ some l
unfolding contains
find_first-last l [] h = ground (arith, str_eq_refl l.id)
find_first-last l (k ∷ ls) h = ground (arith, find_first-last l ls)

pub Unique-right : (xs ys : List Bytes) → Unique (xs ++ ys) → Unique ys
Unique-right [] ys u = u
Unique-right (x ∷ xs) ys u = Unique-right xs ys u.1

pub stored_rows-Unique :
    (l : Bytes) (ts : List MainTask) → Unique (task_ids (stored_rows l 0 ts)) → Unique (main_ids ts)
stored_rows-Unique l ts u =
    subst Unique (ap task_ids (stored_rows-mains l 0 ts) ∙ main_rows-ids l 0 ts)
      (Unique-select (λ (r : TaskColumns). r.id) is_main (stored_rows l 0 ts) u)

-- What the new list's rows give after the integrity of the tables before and after.
get_task_list-with_list :
    (params : CreateTaskListParams) (ts : List MainTask) (t : Tables)
    → IsIntegral t
    → IsIntegral (with_list params ts t)
    → (get_task_list params.id (quiet (with_list params ts t))
        ≡ (ok (scan_list (list_row params), queried params.id ts), quiet (with_list params ts t)))
      × (task_rows_to_main_tasks (queried params.id ts) ≡ ts)
get_task_list-with_list params ts t i i' =
    let rows = stored_rows params.id 0 ts in
    let fresh = Unique-last (list_ids t.task_lists) params.id (
      subst Unique (map-append (λ (l : TaskListColumns). l.id) t.task_lists (list_row params ∷ []))
        i'.list_keys) in
    let keys = subst Unique (map-append (λ (r : TaskColumns). r.id) t.tasks rows) i'.task_keys in
    let found = find_first-last (list_row params) t.task_lists fresh in
    let selected =
      stored_rows-of_task_list params.id t.tasks ts
        (old_rows-in_list params.id (list_ids t.task_lists) t.tasks fresh i.lists_present)
        i.parents_present keys in
    (
      get_task_list-found params.id (with_list params ts t) (list_row params) found
          ∙ ap
              (λ sel. (
                ok (scan_list (list_row params), map scan_task (order_by task_le sel)),
                quiet (with_list params ts t),
              ))
              selected,
      queried-read params.id ts
          (stored_rows-Unique params.id ts (Unique-right (task_ids t.tasks) (task_ids rows) keys)),
    )

scan_list-created :
    (params : CreateTaskListParams) → scan_list (list_row params) ≡ created_row params
scan_list-created params = ground arith

pub create_task_list-get_task_list :
    (params : CreateTaskListParams) (ts : List MainTask) (c c' : Conn)
    (r : TaskListRow × List TaskRow)
    → params.tasks ≡ main_task_params ts
    → IsIntegral c.tables
    → create_task_list params c ≡ (ok r, c')
    → (r.0 ≡ created_row params)
      × ((rows : List TaskRow) × (get_task_list params.id (quiet c'.tables)
            ≡ (ok (created_row params, rows), quiet c'.tables))
          × (task_rows_to_main_tasks rows ≡ ts))
create_task_list-get_task_list params ts c c' r same i h =
    let (made, after) = (create_task_list-Writes params ts same).at c r c' h in
    let kept = subst (λ o. IsIntegral o.1.tables) h ((create_task_list-Preserves params).at c i) in
    let (got, back) = get_task_list-with_list params ts c.tables i (subst IsIntegral after kept) in
    (
      made,
      (
        queried params.id ts,
        subst
            (λ t.
              get_task_list params.id (quiet t)
              ≡ (ok (created_row params, queried params.id ts), quiet t))
            (sym after)
            (got
              ∙ ap (λ l. (ok (l, queried params.id ts), quiet (with_list params ts c.tables)))
                  (scan_list-created params)),
        back,
      ),
    )
