-- ===== src/Tests/ListFailures.antt =====
-- Runs of the handlers of package tasks that fail half way.
use echolist_backend.Base.{some, none, [], ◌∷◌, ◌≡◌, refl, str_eq, contains}
use echolist_backend.Base.Action.{err}
use echolist_backend.Database.Integrity.Runs.{empty_tables}
use echolist_backend.Tasks.Server.{World, create_task_list, update_task_list}
use echolist_backend.Database.Conn.{engine}
use echolist_backend.Common.Errors.{
  new_error, internal, failed_to_create_task_list, failed_to_update_task_list,
}
use echolist_backend.Tasks.Server.Failures.{create_task_list-Harmless, update_task_list-Harmless}
use echolist_backend.Tests.Lists.{
  plain_os, no_rules, numbered, data_dir, request, created_world, emptied,
}

-- The insert of the first subtask fails.
abbrev failing_world : World
failing_world = record {
  conn = record { tables = empty_tables; faults = none ∷ none ∷ none ∷ some engine ∷ [] };
  issued = 0;
}

failed_world : World
unfolding create_task_list
failed_world = (create_task_list plain_os no_rules numbered data_dir 7 request failing_world).1

failed :
    create_task_list plain_os no_rules numbered data_dir 7 request failing_world
    ≡ (err (new_error internal failed_to_create_task_list), failed_world)
unfolding create_task_list failed_world str_eq contains
failed = refl

create_task_list-Harmless_example : failed_world.conn.tables ≡ failing_world.conn.tables
create_task_list-Harmless_example =
    create_task_list-Harmless plain_os no_rules numbered data_dir 7 request failing_world
      (new_error internal failed_to_create_task_list) failed_world failed

-- The new tasks cannot be inserted after the old ones were deleted.
abbrev stuck_world : World
stuck_world = record {
  conn = record {
    tables = created_world.conn.tables;
    faults = none ∷ none ∷ none ∷ none ∷ none ∷ none ∷ some engine ∷ [];
  };
  issued = 5;
}

unchanged_world : World
unfolding update_task_list created_world
unchanged_world = (update_task_list plain_os no_rules numbered data_dir 8 emptied stuck_world).1

unchanged :
    update_task_list plain_os no_rules numbered data_dir 8 emptied stuck_world
    ≡ (err (new_error internal failed_to_update_task_list), unchanged_world)
unfolding create_task_list update_task_list created_world unchanged_world str_eq contains
unchanged = refl

update_task_list-Harmless_example : unchanged_world.conn.tables ≡ stuck_world.conn.tables
update_task_list-Harmless_example =
    update_task_list-Harmless plain_os no_rules numbered data_dir 8 emptied stuck_world
      (new_error internal failed_to_update_task_list) unchanged_world unchanged
