-- ===== src/Tasks/Stored.antt =====
-- The rows of the table tasks for the tasks of a list, as the handlers of tasks/*.go write them.
pub mod Inserted
pub mod Selected
pub mod Sorted
pub mod ReadBack
pub mod RoundTrip
pub mod NewIds
pub mod Handlers
pub mod Rewritten
pub mod Updated
pub mod UpdateHandler
use echolist_backend.Base.{ℕ, ◌+◌, none, some, List, [], ◌∷◌, ◌++◌, Bytes}
use echolist_backend.Database.Types.{TaskColumns, Tables}
use echolist_backend.Database.Helpers.{task_columns}
use echolist_backend.Tasks.Types.{SubTask, MainTask}
use echolist_backend.Tasks.Server.{non_empty}

-- From position `i` on, below the task `p`.
abbrev pub sub_rows : Bytes → ℕ → List SubTask → List TaskColumns
sub_rows p i [] = []
sub_rows p i (s ∷ ss) =
    task_columns s.id s.description s.is_done none none none (some p) i ∷ sub_rows p (i + 1) ss

abbrev pub main_row : Bytes → ℕ → MainTask → TaskColumns
main_row l i t =
    task_columns t.id t.description t.is_done (non_empty t.due_date) (non_empty t.recurrence)
      (some l) none i

-- From position `i` on, in the list `l`: each task before its subtasks.
abbrev pub stored_rows : Bytes → ℕ → List MainTask → List TaskColumns
stored_rows l i [] = []
stored_rows l i (t ∷ ts) =
    main_row l i t ∷ (sub_rows t.id 0 t.sub_tasks ++ stored_rows l (i + 1) ts)

abbrev pub with_tasks : List TaskColumns → Tables → Tables
with_tasks rows t = record t { tasks = t.tasks ++ rows }
