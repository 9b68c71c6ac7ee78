-- ===== src/Tests/Lists.antt =====
-- Runs of the handlers of package tasks, and their theorems at such runs.
use echolist_backend.Base.{
  ℕ, ◌+◌, ◌%◌, true, false, none, [], ◌∷◌, ◌++◌, Bytes, bytes, ◌≡◌, refl, arith, str_eq, contains,
}
use echolist_backend.Base.Action.{ok}
use echolist_backend.Common.Uuid.{validate_uuid_v4}
use echolist_backend.Common.Paths.{Os, found}
use echolist_backend.Common.Names.{directory}
use echolist_backend.Database.Integrity.{IsIntegral}
use echolist_backend.Database.Integrity.Runs.{empty_tables}
use echolist_backend.Tasks.Types.{PbTaskList, CreateTaskListRequest, UpdateTaskListRequest}
use echolist_backend.Tasks.Recurrence.{RRuleLib}
use echolist_backend.Tasks.Server.{World, create_task_list, update_task_list, get_task_list}
use echolist_backend.Tasks.Stored.Handlers.{quiet_world, create_task_list-then_get_task_list}
use echolist_backend.Tasks.Stored.NewIds.{without_ids}
use echolist_backend.Tasks.Stored.UpdateHandler.{update_task_list-then_get_task_list}

-- Every path is its own real path, and a directory.
abbrev pub plain_os : Os
plain_os = record { eval_symlinks = λ p. found p; stat = λ p. directory }

abbrev pub no_rules : RRuleLib
no_rules = record {
  Rule = Unit {0};
  str_to_rrule = λ t. none;
  dt_start = λ d r. r;
  after = λ r d. none;
}

-- Ids that differ in the last digit.
abbrev pub numbered : ℕ → Bytes
numbered n = bytes "00000000-0000-4000-8000-00000000000" ++ ((48 + n % 10) ∷ [])

pub numbered-valid : (n : ℕ) → validate_uuid_v4 (numbered n) ≡ ok tt
unfolding validate_uuid_v4
numbered-valid n = ground arith

abbrev pub data_dir : Bytes
data_dir = bytes "/data"

abbrev pub request : CreateTaskListRequest
request = record {
  parent_dir = [];
  title = bytes "Garden";
  tasks =
      record {
        id = [];
        description = bytes "plant";
        is_done = false;
        due_date = bytes "2024-05-01";
        recurrence = [];
        sub_tasks =
            record { id = []; description = bytes "dig"; is_done = true }
            ∷ record { id = []; description = bytes "seed"; is_done = false }
            ∷ [];
      }
      ∷ record {
        id = [];
        description = bytes "water";
        is_done = false;
        due_date = [];
        recurrence = [];
        sub_tasks = [];
      }
      ∷ [];
  is_auto_delete = false;
}

abbrev pub world : World
world = record { conn = record { tables = empty_tables; faults = [] }; issued = 0 }

abbrev pub response : PbTaskList
response = record {
  id = numbered 0;
  parent_dir = [];
  title = bytes "Garden";
  tasks =
      record {
        id = numbered 1;
        description = bytes "plant";
        is_done = false;
        due_date = bytes "2024-05-01";
        recurrence = [];
        sub_tasks =
            record { id = numbered 2; description = bytes "dig"; is_done = true }
            ∷ record { id = numbered 3; description = bytes "seed"; is_done = false }
            ∷ [];
      }
      ∷ record {
        id = numbered 4;
        description = bytes "water";
        is_done = false;
        due_date = [];
        recurrence = [];
        sub_tasks = [];
      }
      ∷ [];
  updated_at = 7;
  is_auto_delete = false;
}

unfoldable pub created_world : World
unfolding create_task_list
created_world = (create_task_list plain_os no_rules numbered data_dir 7 request world).1

created :
    create_task_list plain_os no_rules numbered data_dir 7 request world
    ≡ (ok response, created_world)
unfolding create_task_list created_world str_eq contains
created = refl

empty_tables-IsIntegral : IsIntegral empty_tables
empty_tables-IsIntegral = record {
  lists_present = tt;
  parents_present = tt;
  owners = tt;
  list_keys = tt;
  task_keys = tt;
  note_keys = tt;
}

create_task_list-then_get_task_list_example :
    (get_task_list plain_os no_rules numbered data_dir response.id (quiet_world created_world)
      ≡ (ok response, quiet_world created_world))
    × (response.title ≡ request.title)
    × (response.parent_dir ≡ request.parent_dir)
    × (response.is_auto_delete ≡ request.is_auto_delete)
    × (without_ids response.tasks ≡ without_ids request.tasks)
create_task_list-then_get_task_list_example =
    create_task_list-then_get_task_list plain_os no_rules numbered data_dir 7 request world
      created_world response numbered-valid empty_tables-IsIntegral created

abbrev pub emptied : UpdateTaskListRequest
emptied = record {
  id = response.id;
  title = bytes "Yard";
  tasks = response.tasks;
  is_auto_delete = true;
}

created_world-IsIntegral : IsIntegral created_world.conn.tables
unfolding create_task_list created_world str_eq contains
created_world-IsIntegral = record {
  lists_present = (refl, (refl, (refl, (refl, tt))));
  parents_present = (refl, (refl, (refl, (refl, tt))));
  owners = (refl, (refl, (refl, (refl, tt))));
  list_keys = (refl, tt);
  task_keys = (refl, (refl, (refl, (refl, tt))));
  note_keys = tt;
}

-- The subtask that is done goes.
abbrev pub yard : PbTaskList
yard = record {
  id = numbered 0;
  parent_dir = [];
  title = bytes "Yard";
  tasks =
      record {
        id = numbered 1;
        description = bytes "plant";
        is_done = false;
        due_date = bytes "2024-05-01";
        recurrence = [];
        sub_tasks = record { id = numbered 3; description = bytes "seed"; is_done = false } ∷ [];
      }
      ∷ record {
        id = numbered 4;
        description = bytes "water";
        is_done = false;
        due_date = [];
        recurrence = [];
        sub_tasks = [];
      }
      ∷ [];
  updated_at = 8;
  is_auto_delete = true;
}

updated_world : World
unfolding update_task_list created_world
updated_world = (update_task_list plain_os no_rules numbered data_dir 8 emptied created_world).1

updated :
    update_task_list plain_os no_rules numbered data_dir 8 emptied created_world
    ≡ (ok yard, updated_world)
unfolding create_task_list update_task_list created_world updated_world str_eq contains
updated = refl

update_task_list-then_get_task_list_example :
    (get_task_list plain_os no_rules numbered data_dir emptied.id (quiet_world updated_world)
      ≡ (ok yard, quiet_world updated_world))
    × (yard.id ≡ emptied.id)
    × (yard.title ≡ emptied.title)
    × (yard.is_auto_delete ≡ emptied.is_auto_delete)
update_task_list-then_get_task_list_example =
    update_task_list-then_get_task_list plain_os no_rules numbered data_dir 8 emptied created_world
      updated_world yard created_world-IsIntegral updated
