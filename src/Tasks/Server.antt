-- ===== src/Tasks/Server.antt =====
-- The handlers of TaskServer, in tasks/*.go.
pub mod Reads
pub mod Failures
use echolist_backend.Base.{
  ℕ, ◌+◌, Bool, true, false, Option, none, some, List, [], ◌∷◌, map, if◌then◌else◌, Bytes, str_eq,
}
use echolist_backend.Base.Action.{Result, ok, err, Action, pure, fail, lift, ◌>>=◌, ◌>>◌}
use echolist_backend.Common.Errors.{
  Message, ConnectError, new_error, invalid_argument, not_found, internal, canceled,
  deadline_exceeded, task_list_not_found, main_task_not_found, failed_to_create_task_list,
  failed_to_get_task_list, failed_to_update_task_list, failed_to_delete_task_list,
  failed_to_list_task_lists, failed_to_get_main_task, failed_to_compute_next_due_date,
  failed_to_list_upcoming, from_date_invalid, context_canceled, context_deadline_exceeded,
}
use echolist_backend.Common.Names.{validate_name, require_dir}
use echolist_backend.Common.Uuid.{validate_uuid_v4}
use echolist_backend.Common.Paths.{Os, validate_parent_dir}
use echolist_backend.Database.Conn.{Conn, DbError, fault, Fault}
use echolist_backend.Database.Answers.{found_or, ok_or}
use echolist_backend.Database.Types.{
  task_params, TaskParamsList, nil, cons, TaskListRow, TaskRow, UpcomingMainTaskRow,
}
use echolist_backend.Database.TaskLists
use echolist_backend.Database.Upcoming
use echolist_backend.Tasks.Types.{
  SubTask, MainTask, PbMainTask, PbTaskList, CreateTaskListRequest, UpdateTaskListRequest,
  PbUpcomingMainTask,
}
use echolist_backend.Tasks.Convert.{
  proto_to_main_tasks, main_task_to_proto, build_task_list, task_rows_to_main_tasks,
  single_task_row_to_main_task,
}
use echolist_backend.Tasks.Validate.{validate_tasks}
use echolist_backend.Tasks.Recurrence.{
  RRuleLib, parses, parse_date, advance_recurring_tasks, filter_auto_deleted,
}

-- The database, and how many calls of uuid.NewString there have been.
pub record World : Type 0 where
  pub conn : Conn
  pub issued : ℕ

abbrev pub Handler : Type 0 → Type 0
Handler A = Action World ConnectError A

-- A call of the database, whose error the handler inspects.
abbrev pub on_db : {A : Type 0} → Action Conn DbError A → Handler (Result DbError A)
on_db m w = let (r, c) = m w.conn in (ok r, record w { conn = c })

-- nil for an empty text
abbrev pub non_empty : Bytes → Option Bytes
non_empty [] = none
non_empty (c ∷ s) = some (c ∷ s)

abbrev pub sub_task_params : List SubTask → TaskParamsList
sub_task_params [] = nil
sub_task_params (s ∷ ss) =
    cons (task_params s.id s.description s.is_done none none nil) (sub_task_params ss)

-- taskParams of both handlers that write.
unfoldable pub main_task_params : List MainTask → TaskParamsList
main_task_params [] = nil
main_task_params (t ∷ ts) =
    cons
      (task_params t.id t.description t.is_done (non_empty t.due_date) (non_empty t.recurrence)
        (sub_task_params t.sub_tasks))
      (main_task_params ts)

-- os: the file system; lib: the recurrence library; new_string: what the n-th call of
-- uuid.NewString returns.
module _ (os : Os) (lib : RRuleLib) (new_string : ℕ → Bytes) (data_dir : Bytes) where
  abbrev pub new_id : Handler Bytes
  new_id w = (ok (new_string w.issued), record w { issued = w.issued + 1 })

  unfoldable pub new_sub_ids : List SubTask → Handler (List SubTask)
  new_sub_ids [] = pure []
  new_sub_ids (s ∷ ss) = do id ← new_id; rest ← new_sub_ids ss; pure (record s { id = id } ∷ rest)

  -- The ids that CreateTaskList gives to every task and subtask.
  unfoldable pub new_ids : List MainTask → Handler (List MainTask)
  unfolding new_sub_ids
  new_ids [] = pure []
  new_ids (t ∷ ts) = do
    id ← new_id
    subs ← new_sub_ids t.sub_tasks
    rest ← new_ids ts
    pure (record t { id = id; sub_tasks = subs } ∷ rest)

  -- A valid id stays, an empty one is replaced, any other is an error.
  abbrev pub checked_id : Bytes → Handler Bytes
  checked_id [] = new_id
  checked_id (c ∷ s) = do lift (validate_uuid_v4 (c ∷ s)); pure (c ∷ s)

  unfoldable pub checked_sub_ids : List SubTask → Handler (List SubTask)
  unfolding validate_uuid_v4
  checked_sub_ids [] = pure []
  checked_sub_ids (s ∷ ss) = do
    id ← checked_id s.id
    rest ← checked_sub_ids ss
    pure (record s { id = id } ∷ rest)

  -- The ids of UpdateTaskList.
  unfoldable pub checked_ids : List MainTask → Handler (List MainTask)
  unfolding checked_sub_ids
  checked_ids [] = pure []
  checked_ids (t ∷ ts) = do
    id ← checked_id t.id
    subs ← checked_sub_ids t.sub_tasks
    rest ← checked_ids ts
    pure (record t { id = id; sub_tasks = subs } ∷ rest)

  unfoldable pub create_task_list : ℕ → CreateTaskListRequest → Handler PbTaskList
  unfolding validate_parent_dir validate_name validate_tasks require_dir new_ids main_task_params
      TaskLists.create_task_list build_task_list proto_to_main_tasks
  create_task_list now req = do
    dir_path ← lift (validate_parent_dir os data_dir req.parent_dir)
    lift (validate_name req.title)
    lift (validate_tasks (parses lib) (proto_to_main_tasks req.tasks))
    lift (require_dir (os.stat dir_path))
    id ← new_id
    tasks ← new_ids (proto_to_main_tasks req.tasks)
    r ← on_db (
        TaskLists.create_task_list (record {
          id = id;
          title = req.title;
          parent_dir = req.parent_dir;
          is_auto_delete = req.is_auto_delete;
          created_at = now;
          updated_at = now;
          tasks = main_task_params tasks;
        }))
    created ← ok_or failed_to_create_task_list r
    let tl = created.0
    pure (build_task_list tl.id tl.parent_dir tl.title tasks tl.updated_at tl.is_auto_delete)

  abbrev pub advanced_or_error : Option (List MainTask) → Handler (List MainTask)
  advanced_or_error none = fail (new_error internal failed_to_compute_next_due_date)
  advanced_or_error (some tasks) = pure tasks

  unfoldable pub update_task_list : ℕ → UpdateTaskListRequest → Handler PbTaskList
  unfolding validate_uuid_v4 validate_name validate_tasks checked_ids TaskLists.get_task_list
      task_rows_to_main_tasks advance_recurring_tasks filter_auto_deleted main_task_params
      TaskLists.update_task_list build_task_list proto_to_main_tasks
  update_task_list now req = do
    lift (validate_uuid_v4 req.id)
    lift (validate_name req.title)
    lift (validate_tasks (parses lib) (proto_to_main_tasks req.tasks))
    tasks ← checked_ids (proto_to_main_tasks req.tasks)
    g ← on_db (TaskLists.get_task_list req.id)
    existing ← found_or task_list_not_found failed_to_get_task_list g
    advanced ←
        advanced_or_error (advance_recurring_tasks lib (task_rows_to_main_tasks existing.1) tasks)
    let kept = if req.is_auto_delete then filter_auto_deleted advanced else advanced
    u ← on_db (
        TaskLists.update_task_list (record {
          id = req.id;
          title = req.title;
          is_auto_delete = req.is_auto_delete;
          updated_at = now;
          tasks = main_task_params kept;
        }))
    updated ← found_or task_list_not_found failed_to_update_task_list u
    let tl = updated.0
    pure (build_task_list tl.id tl.parent_dir tl.title kept tl.updated_at tl.is_auto_delete)

  abbrev pub deleted_or_error : Bool → Handler (Unit {0})
  deleted_or_error true = pure tt
  deleted_or_error false = fail (new_error not_found task_list_not_found)

  unfoldable pub delete_task_list : Bytes → Handler (Unit {0})
  unfolding validate_uuid_v4 TaskLists.delete_task_list
  delete_task_list id = do
    lift (validate_uuid_v4 id)
    r ← on_db (TaskLists.delete_task_list id)
    found ← ok_or failed_to_delete_task_list r
    deleted_or_error found

  unfoldable pub get_task_list : Bytes → Handler PbTaskList
  unfolding validate_uuid_v4 TaskLists.get_task_list task_rows_to_main_tasks build_task_list
  get_task_list id = do
    lift (validate_uuid_v4 id)
    r ← on_db (TaskLists.get_task_list id)
    got ← found_or task_list_not_found failed_to_get_task_list r
    let tl = got.0
    pure (
        build_task_list tl.id tl.parent_dir tl.title (task_rows_to_main_tasks got.1) tl.updated_at
          tl.is_auto_delete)

  unfoldable pub get_main_task : Bytes → Handler PbMainTask
  unfolding validate_uuid_v4 TaskLists.get_main_task single_task_row_to_main_task main_task_to_proto
  get_main_task id = do
    lift (validate_uuid_v4 id)
    r ← on_db (TaskLists.get_main_task id)
    got ← found_or main_task_not_found failed_to_get_main_task r
    pure (main_task_to_proto (single_task_row_to_main_task got.0 got.1))

  -- tasksByList[id]; nothing for a key that is missing.
  abbrev pub tasks_of : Bytes → List (Bytes × List TaskRow) → List TaskRow
  tasks_of id [] = []
  tasks_of id ((k, rows) ∷ rest) =
      let later = tasks_of id rest in if str_eq k id then rows else later

  unfoldable pub list_task_lists : Bytes → Handler (List PbTaskList)
  unfolding validate_parent_dir require_dir TaskLists.list_task_lists task_rows_to_main_tasks
      build_task_list
  list_task_lists parent_dir = do
    dir_path ← lift (validate_parent_dir os data_dir parent_dir)
    lift (require_dir (os.stat dir_path))
    r ← on_db (TaskLists.list_task_lists parent_dir)
    got ← ok_or failed_to_list_task_lists r
    pure (
        map
          (λ (tl : TaskListRow).
            build_task_list tl.id tl.parent_dir tl.title
              (task_rows_to_main_tasks (tasks_of tl.id got.1)) tl.updated_at tl.is_auto_delete)
          got.0)

  -- The context's errors keep their codes.
  abbrev pub upcoming_or_error :
      Result DbError (List UpcomingMainTaskRow) → Handler (List UpcomingMainTaskRow)
  upcoming_or_error (ok rows) = pure rows
  upcoming_or_error (err (fault Fault.canceled)) = fail (new_error canceled context_canceled)
  upcoming_or_error (err (fault Fault.deadline_exceeded)) =
      fail (new_error deadline_exceeded context_deadline_exceeded)
  upcoming_or_error (err (fault Fault.engine)) = fail (new_error internal failed_to_list_upcoming)
  upcoming_or_error (err DbError.not_found) = fail (new_error internal failed_to_list_upcoming)
  upcoming_or_error (err DbError.constraint) = fail (new_error internal failed_to_list_upcoming)

  abbrev pub valid_from_date : Bytes → Result ConnectError (Unit {0})
  valid_from_date s = elim (parse_date s) [
    | none ↦ err (new_error invalid_argument from_date_invalid)
    | some d ↦ ok tt
  ]

  unfoldable pub list_upcoming_main_tasks : Bytes → Handler (List PbUpcomingMainTask)
  unfolding Upcoming.list_upcoming_main_tasks parse_date
  list_upcoming_main_tasks from_date = do
    lift (valid_from_date from_date)
    r ← on_db (Upcoming.list_upcoming_main_tasks from_date)
    rows ← upcoming_or_error r
    pure (
        map
          (λ (row : UpcomingMainTaskRow). record {
            task_id = row.task_id;
            tasklist_id = row.task_list_id;
            title = row.title;
            due_date = row.due_date;
          })
          rows)
