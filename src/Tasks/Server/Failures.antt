-- ===== src/Tasks/Server/Failures.antt =====
-- The tables after an error of CreateTaskList or UpdateTaskList, the handlers of tasks/*.go.
use echolist_backend.Base.{ℕ, ◌+◌, if◌then◌else◌, List, Bytes, ◌≡◌, refl}
use echolist_backend.Base.Action.{Result, err, pure, ◌>>=◌}
use echolist_backend.Common.Errors.{
  ConnectError, failed_to_create_task_list, task_list_not_found, failed_to_get_task_list,
  failed_to_update_task_list,
}
use echolist_backend.Common.Uuid.{validate_uuid_v4}
use echolist_backend.Common.Paths.{Os, validate_parent_dir}
use echolist_backend.Common.Names.{validate_name, require_dir}
use echolist_backend.Database.Types.{
  TaskListRow, TaskRow, CreateTaskListParams, UpdateTaskListParams,
}
use echolist_backend.Database.Conn.{DbError}
use echolist_backend.Database.Conn.RollsBack.{RollsBack, transaction-RollsBack, RollsBack-then}
use echolist_backend.Database.TaskLists
use echolist_backend.Tasks.Types.{
  MainTask, PbTaskList, CreateTaskListRequest, UpdateTaskListRequest,
}
use echolist_backend.Tasks.Validate.{validate_tasks}
use echolist_backend.Tasks.Recurrence.{
  RRuleLib, parses, advance_recurring_tasks, filter_auto_deleted,
}
use echolist_backend.Tasks.Convert.{proto_to_main_tasks, task_rows_to_main_tasks, build_task_list}
use echolist_backend.Database.Answers.{found_or, ok_or}
use echolist_backend.Tasks.Server.{
  World, Handler, on_db, new_ids, checked_ids, advanced_or_error, main_task_params,
  create_task_list, update_task_list,
}
use echolist_backend.Tasks.Server.Reads.{
  Reads, Harmless, proceed-Harmless, after_lift, answered_on, Harmless-on_db, Reads-on_db,
  get_task_list-Reads, found_or-Reads, new_ids-Reads, checked_ids-Reads, advanced_or_error-Reads,
}

create_task_list-RollsBack :
    (params : CreateTaskListParams) → RollsBack (TaskLists.create_task_list params)
unfolding TaskLists.create_task_list
create_task_list-RollsBack params =
    RollsBack-then _ _ _ (transaction-RollsBack (TaskLists.create_list_rows params)) (λ a. refl)

update_task_list-RollsBack :
    (params : UpdateTaskListParams) → RollsBack (TaskLists.update_task_list params)
unfolding TaskLists.update_task_list
update_task_list-RollsBack params =
    RollsBack-then _ _ _ (transaction-RollsBack (TaskLists.update_list_rows params)) (λ a. refl)

-- The call of the database in CreateTaskList, and in UpdateTaskList.
abbrev created_with : ℕ → CreateTaskListRequest → Bytes → List MainTask → CreateTaskListParams
created_with now req id ts = record {
  id = id;
  title = req.title;
  parent_dir = req.parent_dir;
  is_auto_delete = req.is_auto_delete;
  created_at = now;
  updated_at = now;
  tasks = main_task_params ts;
}

-- The ends of the two handlers, on what the database returns.
abbrev answer : List MainTask → TaskListRow × List TaskRow → PbTaskList
answer ts r = build_task_list r.0.id r.0.parent_dir r.0.title ts r.0.updated_at r.0.is_auto_delete

abbrev create_end : List MainTask → Result DbError (TaskListRow × List TaskRow) → Handler PbTaskList
create_end ts r = ok_or failed_to_create_task_list r >>= λ c. pure (answer ts c)

abbrev update_end : List MainTask → Result DbError (TaskListRow × List TaskRow) → Handler PbTaskList
update_end ts r =
    found_or task_list_not_found failed_to_update_task_list r >>= λ c. pure (answer ts c)

abbrev updated_with : ℕ → UpdateTaskListRequest → List MainTask → UpdateTaskListParams
updated_with now req ts = record {
  id = req.id;
  title = req.title;
  is_auto_delete = req.is_auto_delete;
  updated_at = now;
  tasks = main_task_params ts;
}

module _ (os : Os) (lib : RRuleLib) (new_string : ℕ → Bytes) (data_dir : Bytes) where
  -- CreateTaskList, if it returns an error, has changed no table.
  pub create_task_list-Harmless :
      (now : ℕ) (req : CreateTaskListRequest) (w : World) (e : ConnectError) (w' : World)
      → create_task_list os lib new_string data_dir now req w ≡ (err e, w')
      → w'.conn.tables ≡ w.conn.tables
  unfolding create_task_list
  create_task_list-Harmless now req w e w' h =
      after_lift (validate_parent_dir os data_dir req.parent_dir) _ w e w' h (λ d h1.
        after_lift (validate_name req.title) _ w e w' h1 (λ u2 h2.
          after_lift (validate_tasks (parses lib) (proto_to_main_tasks req.tasks)) _ w e w' h2
            (λ u3 h3. after_lift (require_dir (os.stat d)) _ w e w' h3 (λ u4 h4.
              (proceed-Harmless _ w.conn.tables
                (new_ids os lib new_string data_dir (proto_to_main_tasks req.tasks)
                  (record w { issued = w.issued + 1 }))
                e w'
                ((new_ids-Reads os lib new_string data_dir (proto_to_main_tasks req.tasks)).at
                  (record w { issued = w.issued + 1 }))
                (λ ts. record {
                  at = λ v e w' h.
                      let params = created_with now req (new_string w.issued) ts in
                      answered_on (create_end ts) (answer ts) v
                        (TaskLists.create_task_list params v.conn) v.conn.tables e w' (λ a. refl)
                        (λ x. record { at = λ w. refl })
                        (λ x c r. (create_task_list-RollsBack params).at v.conn x c r) h;
                })
                h4)))))

  failed_update : (x : DbError) (kept : List MainTask) → Reads (update_end kept (err x))
  failed_update DbError.not_found kept = record { at = λ w. refl }
  failed_update DbError.constraint kept = record { at = λ w. refl }
  failed_update (DbError.fault x) kept = record { at = λ w. refl }

  stored_or_error :
      (now : ℕ) (req : UpdateTaskListRequest) (kept : List MainTask)
      → Harmless
          (on_db (TaskLists.update_task_list (updated_with now req kept)) >>= update_end kept)
  stored_or_error now req kept =
      Harmless-on_db (TaskLists.update_task_list (updated_with now req kept)) (update_end kept)
        (answer kept) (update_task_list-RollsBack (updated_with now req kept)) (λ a. refl)
        (λ x. failed_update x kept)

  -- UpdateTaskList, if it returns an error, has changed no table.
  pub update_task_list-Harmless :
      (now : ℕ) (req : UpdateTaskListRequest) (w : World) (e : ConnectError) (w' : World)
      → update_task_list os lib new_string data_dir now req w ≡ (err e, w')
      → w'.conn.tables ≡ w.conn.tables
  unfolding update_task_list
  update_task_list-Harmless now req w e w' h =
      after_lift (validate_uuid_v4 req.id) _ w e w' h (λ u1 h1.
        after_lift (validate_name req.title) _ w e w' h1 (λ u2 h2.
          after_lift (validate_tasks (parses lib) (proto_to_main_tasks req.tasks)) _ w e w' h2
            (λ u3 h3.
              proceed-Harmless _ w.conn.tables
                (checked_ids os lib new_string data_dir (proto_to_main_tasks req.tasks) w) e w'
                ((checked_ids-Reads os lib new_string data_dir (proto_to_main_tasks req.tasks)).at
                  w)
                (λ ts. record {
                  at = λ v e w' h.
                      proceed-Harmless _ v.conn.tables (on_db (TaskLists.get_task_list req.id) v) e
                        w'
                        ((Reads-on_db (TaskLists.get_task_list req.id)
                            (get_task_list-Reads req.id)).at
                          v)
                        (λ g. record {
                          at = λ v e w' h.
                              proceed-Harmless _ v.conn.tables
                                (found_or task_list_not_found failed_to_get_task_list g v) e w'
                                ((found_or-Reads task_list_not_found failed_to_get_task_list g).at
                                  v)
                                (λ existing. record {
                                  at = λ v e w' h.
                                      let advanced =
                                        advance_recurring_tasks lib
                                          (task_rows_to_main_tasks existing.1) ts in
                                      proceed-Harmless _ v.conn.tables
                                        (advanced_or_error os lib new_string data_dir advanced v) e
                                        w'
                                        ((advanced_or_error-Reads os lib new_string data_dir
                                            advanced).at
                                          v)
                                        (λ done. stored_or_error now req (
                                          if req.is_auto_delete
                                          then filter_auto_deleted done
                                          else done))
                                        h;
                                })
                                h;
                        })
                        h;
                })
                h3)))
