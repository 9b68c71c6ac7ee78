-- ===== src/Database/Types.antt =====
-- database/types.go, the tables of database/schema.go and the rows of
-- database/upcoming_main_tasks.go. Timestamps (int64 milliseconds) are numbers.
use echolist_backend.Base.{ℕ, Bool, Bytes, Option, List}

-- One row of the table task_lists. is_auto_delete is an INTEGER.
pub record TaskListColumns : Type 0 where
  pub id : Bytes
  pub title : Bytes
  pub parent_dir : Bytes
  pub is_auto_delete : ℕ
  pub created_at : ℕ
  pub updated_at : ℕ

-- One row of the table tasks. is_done is an INTEGER; NULL is `none`.
pub record TaskColumns : Type 0 where
  pub id : Bytes
  pub task_list_id : Option Bytes
  pub parent_task_id : Option Bytes
  pub position : ℕ
  pub description : Bytes
  pub is_done : ℕ
  pub due_date : Option Bytes
  pub recurrence : Option Bytes

pub record TaskListRow : Type 0 where
  pub id : Bytes
  pub title : Bytes
  pub parent_dir : Bytes
  pub is_auto_delete : Bool
  pub created_at : ℕ
  pub updated_at : ℕ
  pub total_task_count : ℕ
  pub done_task_count : ℕ

pub record TaskRow : Type 0 where
  pub id : Bytes
  pub task_list_id : Option Bytes
  pub parent_task_id : Option Bytes
  pub position : ℕ
  pub description : Bytes
  pub is_done : Bool
  pub due_date : Option Bytes
  pub recurrence : Option Bytes

-- The table notes has the columns of the struct.
pub record NoteRow : Type 0 where
  pub id : Bytes
  pub title : Bytes
  pub parent_dir : Bytes
  pub preview : Bytes
  pub created_at : ℕ
  pub updated_at : ℕ

mutual
  -- Id, Description, IsDone, DueDate, Recurrence and SubTasks
  pub data CreateTaskParams : Type 0 where
    task_params :
        Bytes → Bytes → Bool → Option Bytes → Option Bytes → TaskParamsList → CreateTaskParams

  -- []CreateTaskParams
  pub data TaskParamsList : Type 0 where
    nil : TaskParamsList
    cons : CreateTaskParams → TaskParamsList → TaskParamsList

pub record CreateTaskListParams : Type 0 where
  pub id : Bytes
  pub title : Bytes
  pub parent_dir : Bytes
  pub is_auto_delete : Bool
  pub created_at : ℕ
  pub updated_at : ℕ
  pub tasks : TaskParamsList

pub record UpdateTaskListParams : Type 0 where
  pub id : Bytes
  pub title : Bytes
  pub is_auto_delete : Bool
  pub updated_at : ℕ
  pub tasks : TaskParamsList

pub record InsertNoteParams : Type 0 where
  pub id : Bytes
  pub title : Bytes
  pub parent_dir : Bytes
  pub preview : Bytes
  pub created_at : ℕ
  pub updated_at : ℕ

pub record UpcomingMainTaskRow : Type 0 where
  pub task_id : Bytes
  pub task_list_id : Bytes
  pub title : Bytes
  pub due_date : Bytes

-- The three tables, each in the order of insertion.
pub record Tables : Type 0 where
  pub task_lists : List TaskListColumns
  pub tasks : List TaskColumns
  pub notes : List NoteRow
