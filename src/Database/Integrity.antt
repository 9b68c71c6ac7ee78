-- ===== src/Database/Integrity.antt =====
-- The integrity of the tables of database/schema.go.
pub mod Rows
pub mod Calls
pub mod Runs
use echolist_backend.Base.{
  Bool, true, false, ◌&&◌, ◌||◌, not, Option, none, some, List, [], ◌∷◌, ◌++◌, map, select, All,
  Bytes, contains, ◌≡◌, refl, arith, All-append, All-map,
}
use echolist_backend.Base.Action.{Result, ok, err}
use echolist_backend.Database.Types.{TaskListColumns, TaskColumns, NoteRow, Tables}
use echolist_backend.Database.Sql.{
  task_ids, list_ids, note_ids, satisfied, insert_task_row, insert_list_row,
}
use echolist_backend.Database.Sql.Keys.{Unique, Unique-append, satisfied-append}
use echolist_backend.Database.Sql.Cascade.{ParentsPresent}

-- A main task has a list and no parent, a subtask a parent and no list.
abbrev pub one_owner : Option Bytes → Option Bytes → Bool
one_owner none none = false
one_owner none (some p) = true
one_owner (some l) none = true
one_owner (some l) (some p) = false

abbrev pub HasOneOwner : TaskColumns → Type 0
HasOneOwner r = one_owner r.task_list_id r.parent_task_id ≡ true

pub record IsIntegral (t : Tables) : Type 0 where
  pub lists_present : All (λ r. satisfied (list_ids t.task_lists) r.task_list_id ≡ true) t.tasks
  pub parents_present : ParentsPresent t.tasks
  pub owners : All HasOneOwner t.tasks
  pub list_keys : Unique (list_ids t.task_lists)
  pub task_keys : Unique (task_ids t.tasks)
  pub note_keys : Unique (note_ids t.notes)
