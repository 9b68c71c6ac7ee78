-- ===== src/Tasks/Stored/Handlers.antt =====
-- The handler GetTaskList of tasks/get_task_list.go after CreateTaskList of
-- tasks/create_task_list.go.
use mathlib.Core.Path.{subst}
use echolist_backend.Base.{ℕ, ◌+◌, List, map, Bytes, ◌≡◌, refl, sym, ap, ◌∙◌, arith}
use echolist_backend.Base.Action.{Result, ok, err, lift, pure, ◌>>=◌, >>=-InTurn, pure-injective}
use echolist_backend.Common.Errors.{
  Message, failed_to_create_task_list, ConnectError, Check, task_list_not_found,
  failed_to_get_task_list,
}
use echolist_backend.Common.Uuid.{validate_uuid_v4}
use echolist_backend.Common.Paths.{Os, validate_parent_dir}
use echolist_backend.Database.Types.{TaskListRow, TaskRow, CreateTaskListParams}
use echolist_backend.Database.Conn.{Conn, DbError}
use echolist_backend.Database.TaskLists
use echolist_backend.Database.Integrity.{IsIntegral}
use echolist_backend.Tasks.Types.{MainTask, PbMainTask, PbTaskList, CreateTaskListRequest}
use echolist_backend.Tasks.Recurrence.{RRuleLib, parses}
use echolist_backend.Tasks.Validate.{validate_tasks}
use echolist_backend.Common.Names.{validate_name, require_dir}
use echolist_backend.Tasks.Convert.{
  proto_to_main_tasks, main_tasks_to_proto, task_rows_to_main_tasks, build_task_list,
}
use echolist_backend.Database.Answers.{found_or, ok_or}
use echolist_backend.Tasks.Server.{
  Handler, World, new_ids, main_task_params, create_task_list, get_task_list,
}
use echolist_backend.Tasks.Stored.Inserted.{created_row}
use echolist_backend.Tasks.Stored.RoundTrip.{quiet, create_task_list-get_task_list}
use echolist_backend.Tasks.Stored.NewIds.{
  erase, without_ids, erase-proto, main_tasks_to_proto-inverse, new_ids-lem,
}

-- A world in which no statement fails of itself.
abbrev pub quiet_world : World → World
quiet_world w = record w { conn = quiet w.conn.tables }

module _ (os : Os) (lib : RRuleLib) (new_string : ℕ → Bytes) (data_dir : Bytes) where
  -- The rest of GetTaskList after the call of the database.
  abbrev answered :
      World
      → Result DbError (TaskListRow × List TaskRow) × Conn
      → Result ConnectError PbTaskList × World
  answered w p =
      (found_or task_list_not_found failed_to_get_task_list p.0 >>= λ got. pure (
          build_task_list got.0.id got.0.parent_dir got.0.title (task_rows_to_main_tasks got.1)
            got.0.updated_at got.0.is_auto_delete))
        (record w { conn = p.1 })

  abbrev checked_first : Bytes → World → Check → Result ConnectError PbTaskList × World
  checked_first id w v = (lift v >>= λ u w1. answered w1 (TaskLists.get_task_list id w1.conn)) w

  pub get_task_list-ok :
      (id : Bytes) (w : World) (row : TaskListRow) (rows : List TaskRow)
      → validate_uuid_v4 id ≡ ok tt
      → TaskLists.get_task_list id (quiet w.conn.tables) ≡ (ok (row, rows), quiet w.conn.tables)
      → get_task_list os lib new_string data_dir id (quiet_world w) ≡ (
        ok (
            build_task_list row.id row.parent_dir row.title
              (task_rows_to_main_tasks rows)
              row.updated_at
              row.is_auto_delete),
        quiet_world w,
      )
  unfolding get_task_list
  get_task_list-ok id w row rows valid got =
      ap (checked_first id (quiet_world w)) valid ∙ ap (answered (quiet_world w)) got

pub lift-ok :
    {A B : Type 0} (r : Result ConnectError A) (f : A → Handler B) (w w' : World) (b : B)
    → (lift r >>= f) w ≡ (ok b, w')
    → (a : A) × (r ≡ ok a) × (f a w ≡ (ok b, w'))
lift-ok (ok a) f w w' b h = (a, refl, h)
lift-ok (err e) f w w' b h = ground arith

ok_or-ok :
    {A B : Type 0} (m : Message) (p : Result DbError A × Conn) (f : A → Handler B) (w w' : World)
    (b : B)
    → (ok_or m p.0 >>= f) (record w { conn = p.1 }) ≡ (ok b, w')
    → (a : A) × (p ≡ (ok a, p.1)) × (f a (record w { conn = p.1 }) ≡ (ok b, w'))
ok_or-ok m (ok a, c) f w w' b h = (a, refl, h)
ok_or-ok m (err e, c) f w w' b h = ground arith

module _ (os : Os) (lib : RRuleLib) (new_string : ℕ → Bytes) (data_dir : Bytes) where
  -- The call of the database that CreateTaskList makes.
  abbrev params_of : ℕ → CreateTaskListRequest → World → List MainTask → CreateTaskListParams
  params_of now req w ts = record {
    id = new_string w.issued;
    title = req.title;
    parent_dir = req.parent_dir;
    is_auto_delete = req.is_auto_delete;
    created_at = now;
    updated_at = now;
    tasks = main_task_params ts;
  }

  abbrev Stores : ℕ → CreateTaskListRequest → World → PbTaskList → World → Type 0
  Stores now req w tl w' =
      (ts : List MainTask) × (c : Conn) × (created : TaskListRow × List TaskRow) × (c ≡ w.conn)
      × (map erase ts ≡ map erase (proto_to_main_tasks req.tasks))
      × (TaskLists.create_task_list (params_of now req w ts) c ≡ (ok created, w'.conn))
      × (build_task_list created.0.id created.0.parent_dir created.0.title ts created.0.updated_at
            created.0.is_auto_delete
          ≡ tl)

  create_task_list-Stores :
      (now : ℕ) (req : CreateTaskListRequest) (w w' : World) (tl : PbTaskList)
      → create_task_list os lib new_string data_dir now req w ≡ (ok tl, w')
      → Stores now req w tl w'
  unfolding create_task_list
  create_task_list-Stores now req w w' tl h =
      let (d, h1, s1) = lift-ok (validate_parent_dir os data_dir req.parent_dir) _ w w' tl h in
      let (u2, h2, s2) = lift-ok (validate_name req.title) _ w w' tl s1 in
      let (u3, h3, s3) =
        lift-ok (validate_tasks (parses lib) (proto_to_main_tasks req.tasks)) _ w w' tl s2 in
      let (u4, h4, s4) = lift-ok (require_dir (os.stat d)) _ w w' tl s3 in
      let w0 = record w { issued = w.issued + 1 } in
      let (ts, w1, made, s5) =
        >>=-InTurn (new_ids os lib new_string data_dir (proto_to_main_tasks req.tasks)) _ w0 w' tl
          s4 in
      let (same, conn) =
        new_ids-lem os lib new_string data_dir (proto_to_main_tasks req.tasks) ts w0 w1 made in
      let p = TaskLists.create_task_list (params_of now req w ts) w1.conn in
      let (created, stored, s6) = ok_or-ok failed_to_create_task_list p _ w1 w' tl s5 in
      let (built, left) = pure-injective _ tl (record w1 { conn = p.1 }) w' s6 in
      (ts, w1.conn, created, conn, same, stored ∙ ap (λ v. (ok created, v.conn)) left, built)

  tasks_without_ids :
      (ts : List MainTask) (pbs : List PbMainTask)
      → map erase ts ≡ map erase (proto_to_main_tasks pbs)
      → without_ids (main_tasks_to_proto ts) ≡ without_ids pbs
  tasks_without_ids ts pbs same =
      erase-proto ts
      ∙ ap main_tasks_to_proto same
      ∙ sym (erase-proto (proto_to_main_tasks pbs))
      ∙ ap without_ids (main_tasks_to_proto-inverse pbs)

  -- If the tables are integral and uuid.NewString yields texts that ValidateUuidV4 accepts, then
  -- after a successful CreateTaskList, on a connection whose statements do not fail of themselves,
  -- GetTaskList with the id of the response returns that same response: the title, the directory
  -- and the flag of the request, and its tasks and subtasks in their order, with nothing but their
  -- ids replaced.
  pub create_task_list-then_get_task_list :
      (now : ℕ) (req : CreateTaskListRequest) (w w' : World) (tl : PbTaskList)
      → ((n : ℕ) → validate_uuid_v4 (new_string n) ≡ ok tt)
      → IsIntegral w.conn.tables
      → create_task_list os lib new_string data_dir now req w ≡ (ok tl, w')
      → (get_task_list os lib new_string data_dir tl.id (quiet_world w') ≡ (ok tl, quiet_world w'))
        × (tl.title ≡ req.title)
        × (tl.parent_dir ≡ req.parent_dir)
        × (tl.is_auto_delete ≡ req.is_auto_delete)
        × (without_ids tl.tasks ≡ without_ids req.tasks)
  unfolding build_task_list
  create_task_list-then_get_task_list now req w w' tl valid i h =
      let (ts, c, created, conn, same, stored, built) = create_task_list-Stores now req w w' tl h in
      let params = params_of now req w ts in
      let (made, (rows, got, back)) =
        create_task_list-get_task_list params ts c w'.conn created refl
          (subst (λ (d : Conn). IsIntegral d.tables) (sym conn) i) stored in
      let row = created_row params in
      let read =
        get_task_list-ok os lib new_string data_dir params.id w' row rows (valid w.issued) got in
      let answer : TaskListRow → List MainTask → PbTaskList =
        λ r us. build_task_list r.id r.parent_dir r.title us r.updated_at r.is_auto_delete in
      let same_answer : answer row ts ≡ tl = sym (ap (λ r. answer r ts) made) ∙ built in
      (
        subst
            (λ v.
              get_task_list os lib new_string data_dir v.id (quiet_world w')
              ≡ (ok v, quiet_world w'))
            same_answer (read ∙ ap (λ us. (ok (answer row us), quiet_world w')) back),
        subst (λ v. v.title ≡ req.title) same_answer refl,
        subst (λ v. v.parent_dir ≡ req.parent_dir) same_answer refl,
        subst (λ v. v.is_auto_delete ≡ req.is_auto_delete) same_answer refl,
        subst (λ v. without_ids v.tasks ≡ without_ids req.tasks) same_answer
            (tasks_without_ids ts req.tasks same),
      )
