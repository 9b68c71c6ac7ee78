-- ===== src/Tasks/Stored/UpdateHandler.antt =====
-- The handler GetTaskList of tasks/get_task_list.go after UpdateTaskList of
-- tasks/update_task_list.go.
use mathlib.Core.Path.{subst}
use echolist_backend.Base.{
  ℕ, Option, none, some, List, if◌then◌else◌, Bytes, ◌≡◌, refl, sym, ap, ◌∙◌, arith,
}
use echolist_backend.Base.Action.{Result, ok, err, ◌>>=◌, >>=-InTurn, pure-injective}
use echolist_backend.Common.Errors.{
  Message, task_list_not_found, failed_to_get_task_list, failed_to_update_task_list,
}
use echolist_backend.Common.Uuid.{validate_uuid_v4}
use echolist_backend.Common.Names.{validate_name}
use echolist_backend.Common.Paths.{Os}
use echolist_backend.Database.Types.{TaskListRow, TaskRow, UpdateTaskListParams}
use echolist_backend.Database.Conn.{Conn, DbError}
use echolist_backend.Database.TaskLists
use echolist_backend.Database.Integrity.{IsIntegral}
use echolist_backend.Tasks.Types.{MainTask, PbTaskList, UpdateTaskListRequest}
use echolist_backend.Tasks.Validate.{validate_tasks}
use echolist_backend.Tasks.Recurrence.{
  RRuleLib, parses, advance_recurring_tasks, filter_auto_deleted,
}
use echolist_backend.Tasks.Convert.{proto_to_main_tasks, task_rows_to_main_tasks, build_task_list}
use echolist_backend.Database.Answers.{found_or}
use echolist_backend.Tasks.Server.{
  World, Handler, advanced_or_error, checked_ids, main_task_params, update_task_list, get_task_list,
}
use echolist_backend.Tasks.Server.Reads.{checked_ids-Reads, get_task_list-Reads}
use echolist_backend.Tasks.Stored.Updated.{update_task_list-get_task_list}
use echolist_backend.Tasks.Stored.Handlers.{quiet_world, get_task_list-ok, lift-ok}

found_or-ok :
    {A B : Type 0} (a m : Message) (p : Result DbError A × Conn) (f : A → Handler B) (w w' : World)
    (b : B)
    → (found_or a m p.0 >>= f) (record w { conn = p.1 }) ≡ (ok b, w')
    → (x : A) × (p ≡ (ok x, p.1)) × (f x (record w { conn = p.1 }) ≡ (ok b, w'))
found_or-ok a m (ok x, c) f w w' b h = (x, refl, h)
found_or-ok a m (err DbError.not_found, c) f w w' b h = ground arith
found_or-ok a m (err DbError.constraint, c) f w w' b h = ground arith
found_or-ok a m (err (DbError.fault e), c) f w w' b h = ground arith

module _ (os : Os) (lib : RRuleLib) (new_string : ℕ → Bytes) (data_dir : Bytes) where
  advanced-ok :
      {B : Type 0} (o : Option (List MainTask)) (f : List MainTask → Handler B) (w w' : World)
      (b : B)
      → (advanced_or_error os lib new_string data_dir o >>= f) w ≡ (ok b, w')
      → (ts : List MainTask) × (f ts w ≡ (ok b, w'))
  advanced-ok none f w w' b h = ground arith
  advanced-ok (some ts) f w w' b h = (ts, h)

  -- The call of the database that UpdateTaskList makes.
  abbrev params_of : ℕ → UpdateTaskListRequest → List MainTask → UpdateTaskListParams
  params_of now req ts = record {
    id = req.id;
    title = req.title;
    is_auto_delete = req.is_auto_delete;
    updated_at = now;
    tasks = main_task_params ts;
  }

  abbrev Stores : ℕ → UpdateTaskListRequest → World → PbTaskList → World → Type 0
  Stores now req w tl w' =
      (ts : List MainTask) × (c : Conn) × (updated : TaskListRow × List TaskRow) × (validate_uuid_v4
          req.id
        ≡ ok tt)
      × (c.tables ≡ w.conn.tables)
      × (TaskLists.update_task_list (params_of now req ts) c ≡ (ok updated, w'.conn))
      × (build_task_list updated.0.id updated.0.parent_dir updated.0.title ts updated.0.updated_at
            updated.0.is_auto_delete
          ≡ tl)

  update_task_list-Stores :
      (now : ℕ) (req : UpdateTaskListRequest) (w w' : World) (tl : PbTaskList)
      → update_task_list os lib new_string data_dir now req w ≡ (ok tl, w')
      → Stores now req w tl w'
  unfolding update_task_list
  update_task_list-Stores now req w w' tl h =
      let (u1, h1, s1) = lift-ok (validate_uuid_v4 req.id) _ w w' tl h in
      let (u2, h2, s2) = lift-ok (validate_name req.title) _ w w' tl s1 in
      let (u3, h3, s3) =
        lift-ok (validate_tasks (parses lib) (proto_to_main_tasks req.tasks)) _ w w' tl s2 in
      let given = proto_to_main_tasks req.tasks in
      let (ts, w1, made, s4) =
        >>=-InTurn (checked_ids os lib new_string data_dir given) _ w w' tl s3 in
      let tables1 =
        ap (λ q. q.1.conn.tables) (sym made)
        ∙ (checked_ids-Reads os lib new_string data_dir given).at w in
      let p = TaskLists.get_task_list req.id w1.conn in
      let tables2 = (get_task_list-Reads req.id w1.conn.tables).at w1.conn refl in
      let (existing, got, s5) =
        found_or-ok task_list_not_found failed_to_get_task_list p _ w1 w' tl s4 in
      let (done, s6) =
        advanced-ok (advance_recurring_tasks lib (task_rows_to_main_tasks existing.1) ts) _
          (record w1 { conn = p.1 }) w' tl s5 in
      let kept = if req.is_auto_delete then filter_auto_deleted done else done in
      let q = TaskLists.update_task_list (params_of now req kept) p.1 in
      let (updated, stored, s7) =
        found_or-ok task_list_not_found failed_to_update_task_list q _ w1 w' tl s6 in
      let (built, left) = pure-injective _ tl (record w1 { conn = q.1 }) w' s7 in
      (
        kept,
        p.1,
        updated,
        h1,
        tables2 ∙ tables1,
        stored ∙ ap (λ v. (ok updated, v.conn)) left,
        built,
      )

  -- If the tables are integral, then after a successful UpdateTaskList, on a connection whose
  -- statements do not fail of themselves, GetTaskList with the id of the request returns the
  -- response of the update, tasks and subtasks in their order; its title and flag are those of the
  -- request.
  pub update_task_list-then_get_task_list :
      (now : ℕ) (req : UpdateTaskListRequest) (w w' : World) (tl : PbTaskList)
      → IsIntegral w.conn.tables
      → update_task_list os lib new_string data_dir now req w ≡ (ok tl, w')
      → (get_task_list os lib new_string data_dir req.id (quiet_world w') ≡ (ok tl, quiet_world w'))
        × (tl.id ≡ req.id)
        × (tl.title ≡ req.title)
        × (tl.is_auto_delete ≡ req.is_auto_delete)
  unfolding build_task_list
  update_task_list-then_get_task_list now req w w' tl i h =
      let (ts, c, updated, valid, tables, stored, built) =
        update_task_list-Stores now req w w' tl h in
      let (rows, got, back, id, title, flag) =
        update_task_list-get_task_list (params_of now req ts) ts c w'.conn updated refl
          (subst IsIntegral (sym tables) i) stored in
      let row = updated.0 in
      let read = get_task_list-ok os lib new_string data_dir req.id w' row rows valid got in
      let answer : List MainTask → PbTaskList = λ us.
        build_task_list row.id row.parent_dir row.title us row.updated_at row.is_auto_delete in
      (
        read
            ∙ ap (λ us. (ok (answer us), quiet_world w')) back
            ∙ ap (λ v. (ok v, quiet_world w')) built,
        subst (λ v. v.id ≡ req.id) built id,
        subst (λ v. v.title ≡ req.title) built title,
        subst (λ v. v.is_auto_delete ≡ req.is_auto_delete) built flag,
      )
