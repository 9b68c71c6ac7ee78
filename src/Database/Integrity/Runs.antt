-- ===== src/Database/Integrity/Runs.antt =====
-- Any sequence of calls to the methods of Database in package database, from an empty database.
use echolist_backend.Base.{ℕ, Bytes, Option, List, [], ◌∷◌}
use echolist_backend.Database.Types.{
  Tables, CreateTaskListParams, UpdateTaskListParams, InsertNoteParams,
}
use echolist_backend.Database.Conn.{Conn, Fault}
use echolist_backend.Database.Notes.{insert_note, update_note, delete_note}
use echolist_backend.Database.TaskLists.{create_task_list, update_task_list, delete_task_list}
use echolist_backend.Database.Folders.{delete_by_parent_dir, rename_parent_dir}
use echolist_backend.Database.Integrity.{IsIntegral}
use echolist_backend.Database.Integrity.Calls.{
  insert_note-Preserves, update_note-Preserves, delete_note-Preserves, create_task_list-Preserves,
  update_task_list-Preserves, delete_task_list-Preserves, delete_by_parent_dir-Preserves,
  rename_parent_dir-Preserves,
}

-- A call of a method that writes; those that only read change no table.
pub data Call : Type 0 where
  insert : InsertNoteParams → Call
  update : Bytes → Bytes → Bytes → ℕ → Call
  delete : Bytes → Call
  create_list : CreateTaskListParams → Call
  update_list : UpdateTaskListParams → Call
  delete_list : Bytes → Call
  delete_dir : Bytes → Call
  rename_dir : Bytes → Bytes → Call

-- The tables and the faults ahead after the call, whether it succeeds or fails.
unfoldable pub after_call : Call → Conn → Conn
after_call (insert params) c = (insert_note params c).1
after_call (update id title preview updated_at) c = (update_note id title preview updated_at c).1
after_call (delete id) c = (delete_note id c).1
after_call (create_list params) c = (create_task_list params c).1
after_call (update_list params) c = (update_task_list params c).1
after_call (delete_list id) c = (delete_task_list id c).1
after_call (delete_dir dir_path) c = (delete_by_parent_dir dir_path c).1
after_call (rename_dir old_path new_path) c = (rename_parent_dir old_path new_path c).1

unfoldable pub after_calls : List Call → Conn → Conn
unfolding after_call
after_calls [] c = c
after_calls (call ∷ calls) c = after_calls calls (after_call call c)

abbrev pub empty_tables : Tables
empty_tables = record { task_lists = []; tasks = []; notes = [] }

abbrev pub opened : List (Option Fault) → Conn
opened faults = record { tables = empty_tables; faults = faults }

after_call-IsIntegral :
    (call : Call) (c : Conn) → IsIntegral c.tables → IsIntegral (after_call call c).tables
unfolding after_call
after_call-IsIntegral (insert params) c i = (insert_note-Preserves params).at c i
after_call-IsIntegral (update id title preview updated_at) c i =
    (update_note-Preserves id title preview updated_at).at c i
after_call-IsIntegral (delete id) c i = (delete_note-Preserves id).at c i
after_call-IsIntegral (create_list params) c i = (create_task_list-Preserves params).at c i
after_call-IsIntegral (update_list params) c i = (update_task_list-Preserves params).at c i
after_call-IsIntegral (delete_list id) c i = (delete_task_list-Preserves id).at c i
after_call-IsIntegral (delete_dir dir_path) c i = (delete_by_parent_dir-Preserves dir_path).at c i
after_call-IsIntegral (rename_dir old_path new_path) c i =
    (rename_parent_dir-Preserves old_path new_path).at c i

after_calls-IsIntegral_from :
    (calls : List Call) (c : Conn) → IsIntegral c.tables → IsIntegral (after_calls calls c).tables
unfolding after_calls
after_calls-IsIntegral_from [] c i = i
after_calls-IsIntegral_from (call ∷ calls) c i =
    after_calls-IsIntegral_from calls (after_call call c) (after_call-IsIntegral call c i)

-- From an empty database, after any calls, whichever statements fail: every task has exactly one
-- of a list and a parent, and that one is there; and no table holds a key twice.
pub after_calls-IsIntegral :
    (calls : List Call) (faults : List (Option Fault))
    → IsIntegral (after_calls calls (opened faults)).tables
after_calls-IsIntegral calls faults = after_calls-IsIntegral_from calls (opened faults) (record {
  lists_present = tt;
  parents_present = tt;
  owners = tt;
  list_keys = tt;
  task_keys = tt;
  note_keys = tt;
})
