-- ===== src/Tasks/Stored/Inserted.antt =====
-- What insertTask of database/helpers.go and CreateTaskList of database/task_lists.go write.
use mathlib.Core.List.{append_assoc, append-nil}
use echolist_backend.Base.{
  ℕ, ◌+◌, none, some, List, [], ◌∷◌, ◌++◌, Bytes, ◌≡◌, refl, sym, ap, arith,
}
use echolist_backend.Base.Action.{ok, Action, ◌>>=◌}
use echolist_backend.Database.Types.{
  TaskListColumns, TaskListRow, CreateTaskListParams, TaskColumns, TaskRow, Tables,
}
use echolist_backend.Database.Conn.{Conn, DbError, exec}
use echolist_backend.Database.Conn.Writes.{
  Writes, Writes-pure, Writes-exec, Writes-bind, Writes-transaction, Writes-as,
}
use echolist_backend.Database.Sql.{insert_task_row, insert_list_row}
use echolist_backend.Database.Helpers.{bool_to_int, insert_tasks}
use echolist_backend.Database.TaskLists.{create_task_list}
use echolist_backend.Tasks.Types.{SubTask, MainTask}
use echolist_backend.Tasks.Server.{sub_task_params, main_task_params}
use echolist_backend.Tasks.Stored.{sub_rows, stored_rows, main_row, with_tasks}

insert_task_row-appends :
    (r : TaskColumns) (t : Tables) (u : Unit {0}) (t' : Tables)
    → insert_task_row r t ≡ ok (u, t')
    → t' ≡ with_tasks (r ∷ []) t
unfolding insert_task_row
insert_task_row-appends r t u t' h = ground arith

abbrev AnyResult : {A : Type 0} → A → Type 0
AnyResult a = Unit

insert_task_row-Writes :
    (r : TaskColumns) → Writes AnyResult (with_tasks (r ∷ [])) (exec (insert_task_row r))
insert_task_row-Writes r =
    Writes-exec (insert_task_row r) (with_tasks (r ∷ []))
      (λ t b t' h. (tt, insert_task_row-appends r t b t' h))

with_tasks-append :
    (xs ys : List TaskColumns) (t : Tables)
    → with_tasks ys (with_tasks xs t) ≡ with_tasks (xs ++ ys) t
with_tasks-append xs ys t = ap (λ rows. record t { tasks = rows }) (append_assoc t.tasks xs ys)

with_tasks-none : (t : Tables) → t ≡ with_tasks [] t
with_tasks-none t = ap (λ rows. record t { tasks = rows }) (sym (append-nil t.tasks))

-- One call after another.
in_turn :
    {A B : Type 0} (xs ys : List TaskColumns) (m : Action Conn DbError A)
    (f : A → Action Conn DbError B)
    → Writes AnyResult (with_tasks xs) m
    → ((a : A) → Writes AnyResult (with_tasks ys) (f a))
    → Writes AnyResult (with_tasks (xs ++ ys)) (m >>= f)
in_turn xs ys m f km kf =
    Writes-as _ _ (with_tasks-append xs ys)
      (Writes-bind (with_tasks xs) (with_tasks ys) m f km (λ a v. kf a))

sub_tasks-Writes :
    (ss : List SubTask) (p : Bytes) (i : ℕ) (rows : List TaskRow)
    → Writes AnyResult
        (with_tasks (sub_rows p i ss))
        (insert_tasks (sub_task_params ss) none (some p) i rows)
unfolding insert_tasks
sub_tasks-Writes [] p i rows = Writes-as _ _ with_tasks-none (Writes-pure rows tt)
sub_tasks-Writes (s ∷ ss) p i rows =
    in_turn (_ ∷ []) (sub_rows p (i + 1) ss) _ _
      (in_turn (_ ∷ []) [] _ _ (insert_task_row-Writes _)
        (λ u. Writes-as _ _ with_tasks-none (Writes-pure _ tt)))
      (λ rows'. sub_tasks-Writes ss p (i + 1) rows')

pub main_tasks-Writes :
    (ts : List MainTask) (l : Bytes) (i : ℕ) (rows : List TaskRow)
    → Writes AnyResult
        (with_tasks (stored_rows l i ts))
        (insert_tasks (main_task_params ts) (some l) none i rows)
unfolding insert_tasks main_task_params
main_tasks-Writes [] l i rows = Writes-as _ _ with_tasks-none (Writes-pure rows tt)
main_tasks-Writes (t ∷ ts) l i rows =
    in_turn (main_row l i t ∷ sub_rows t.id 0 t.sub_tasks) (stored_rows l (i + 1) ts) _ _
      (in_turn (main_row l i t ∷ []) (sub_rows t.id 0 t.sub_tasks) _ _ (insert_task_row-Writes _)
        (λ u. sub_tasks-Writes t.sub_tasks t.id 0 _))
      (λ rows'. main_tasks-Writes ts l (i + 1) rows')

insert_list_row-appends :
    (l : TaskListColumns) (t : Tables) (u : Unit {0}) (t' : Tables)
    → insert_list_row l t ≡ ok (u, t')
    → t' ≡ record t { task_lists = t.task_lists ++ (l ∷ []) }
unfolding insert_list_row
insert_list_row-appends l t u t' h = ground arith

-- The row of task_lists that CreateTaskList writes.
abbrev pub list_row : CreateTaskListParams → TaskListColumns
list_row params = record {
  id = params.id;
  title = params.title;
  parent_dir = params.parent_dir;
  is_auto_delete = bool_to_int params.is_auto_delete;
  created_at = params.created_at;
  updated_at = params.updated_at;
}

-- What CreateTaskList returns of the list.
abbrev pub created_row : CreateTaskListParams → TaskListRow
created_row params = record {
  id = params.id;
  title = params.title;
  parent_dir = params.parent_dir;
  is_auto_delete = params.is_auto_delete;
  created_at = params.created_at;
  updated_at = params.updated_at;
  total_task_count = 0;
  done_task_count = 0;
}

abbrev pub with_list : CreateTaskListParams → List MainTask → Tables → Tables
with_list params ts t = record t {
  task_lists = t.task_lists ++ (list_row params ∷ []);
  tasks = t.tasks ++ stored_rows params.id 0 ts;
}

pub create_task_list-Writes :
    (params : CreateTaskListParams) (ts : List MainTask)
    → params.tasks ≡ main_task_params ts
    → Writes (λ r. r.0 ≡ created_row params) (with_list params ts) (create_task_list params)
unfolding create_task_list
create_task_list-Writes params ts same =
    Writes-bind (with_list params ts) (λ t. t) _ _
      (Writes-transaction {V = AnyResult} (with_list params ts) _ (
        Writes-bind {V = AnyResult}
          (λ t. record t { task_lists = t.task_lists ++ (list_row params ∷ []) })
          (with_tasks (stored_rows params.id 0 ts)) _ _
          (Writes-exec _ _ (λ t b t' h. (tt, insert_list_row-appends (list_row params) t b t' h)))
          (λ u v. rw same (main_tasks-Writes ts params.id 0 []))))
      (λ rows v. Writes-pure _ refl)
