-- ===== src/Tests/Tables.antt =====
-- Runs of package database, and its theorems at concrete inputs.
use echolist_backend.Base.{
  true, false, none, some, List, [], ◌∷◌, length, Bytes, bytes, str_eq, contains, ◌≡◌, refl, arith,
}
use echolist_backend.Database.Types.{InsertNoteParams, task_params, nil, cons, CreateTaskListParams}
use echolist_backend.Database.Conn.{Conn, Fault}
use echolist_backend.Database.Conn.Outcome.{OnlyFaults}
use echolist_backend.Database.Sql.{drop_chars}
use echolist_backend.Database.TaskLists
use echolist_backend.Database.Notes.{insert_note}
use echolist_backend.Database.Notes.Laws.{row_of}
use echolist_backend.Database.Folders.{
  under_prefix, delete_by_parent_dir, rename_prefix, rename_parent_dir,
}
use echolist_backend.Database.Folders.Prefix.{starts_with_fold, under_prefix-eq-starts_with_fold}
use echolist_backend.Database.Folders.Renaming.{below, rename_prefix-below}
use echolist_backend.Database.Folders.Effects.{
  within, Emptied, delete_by_parent_dir_exact, Moved, relocated, rename_parent_dir_exact,
}
use echolist_backend.Database.Integrity.{IsIntegral}
use echolist_backend.Database.Integrity.Runs.{
  Call, insert, create_list, delete_list, delete_dir, after_calls, opened, after_calls-IsIntegral,
}

abbrev groceries : CreateTaskListParams
groceries = record {
  id = bytes "l1";
  title = bytes "groceries";
  parent_dir = bytes "Home";
  is_auto_delete = false;
  created_at = 1;
  updated_at = 1;
  tasks =
      cons
        (task_params (bytes "t1") (bytes "milk") false (some (bytes "2025-01-31")) none
          (cons (task_params (bytes "s1") (bytes "oat") true none none nil) nil))
        (cons (task_params (bytes "t2") (bytes "bread") true none none nil) nil);
}

abbrev memo : InsertNoteParams
memo = record {
  id = bytes "n1";
  title = bytes "memo";
  parent_dir = bytes "Home/Ideas";
  preview = bytes "text";
  created_at = 5;
  updated_at = 5;
}

abbrev script : List Call
script =
    create_list groceries
    ∷ insert memo
    ∷ insert memo
    ∷ delete_list (bytes "l1")
    ∷ create_list groceries
    ∷ delete_dir (bytes "Home")
    ∷ []

after_calls-IsIntegral_example :
    IsIntegral (after_calls script (opened (none ∷ none ∷ some Fault.engine ∷ []))).tables
after_calls-IsIntegral_example =
    after_calls-IsIntegral script (none ∷ none ∷ some Fault.engine ∷ [])

-- The tables after one list and one note are created.
abbrev stocked : Conn
stocked = after_calls (create_list groceries ∷ insert memo ∷ []) (opened [])

three_tasks : length stocked.tables.tasks ≡ 3
unfolding after_calls insert_note TaskLists.create_task_list contains str_eq
three_tasks = refl

abbrev filled : Conn
filled = record {
  tables = record { task_lists = []; tasks = []; notes = row_of memo ∷ [] };
  faults = [];
}

under_prefix-eq-starts_with_fold_example :
    under_prefix (bytes "50%_off/") (bytes "50%_OFF/a")
    ≡ starts_with_fold (bytes "50%_off/") (bytes "50%_OFF/a")
under_prefix-eq-starts_with_fold_example =
    under_prefix-eq-starts_with_fold (bytes "50%_off/") (bytes "50%_OFF/a")

delete_by_parent_dir_exact_example :
    OnlyFaults
      (λ _ t'. Emptied (within (bytes "Home")) filled.tables t')
      filled
      (delete_by_parent_dir (bytes "Home") filled)
delete_by_parent_dir_exact_example = delete_by_parent_dir_exact (bytes "Home") filled

rename_parent_dir_exact_example :
    OnlyFaults
      (λ _ t'. Moved (relocated (bytes "Home") (bytes "House")) filled.tables t')
      filled
      (rename_parent_dir (bytes "Home") (bytes "House") filled)
rename_parent_dir_exact_example =
    rename_parent_dir_exact (bytes "Home") (bytes "House") filled (omega arith) refl

-- The bytes of a folder named with an umlaut.
abbrev buero : Bytes
buero = b'B' ∷ 0xc3 ∷ 0xbc ∷ b'r' ∷ b'o' ∷ []

rename_prefix-below_example :
    rename_prefix buero (bytes "Office") (below buero (bytes "plans"))
    ≡ below (bytes "Office") (drop_chars 1 (bytes "plans"))
rename_prefix-below_example = rename_prefix-below buero (bytes "Office") (bytes "plans")

lost_letter :
    rename_prefix buero (bytes "Office") (below buero (bytes "plans")) ≡ bytes "Office/lans"
unfolding rename_prefix
lost_letter = refl
