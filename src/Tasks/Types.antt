-- ===== src/Tasks/Types.antt =====
-- tasks/types.go, and the messages of proto/tasks/v1 that the handlers read and build.
use echolist_backend.Base.{ℕ, Bool, Bytes, List}

pub record SubTask : Type 0 where
  pub id : Bytes
  pub description : Bytes
  pub is_done : Bool

pub record MainTask : Type 0 where
  pub id : Bytes
  pub description : Bytes
  pub is_done : Bool
  pub due_date : Bytes
  pub recurrence : Bytes
  pub sub_tasks : List SubTask

-- pb.SubTask
pub record PbSubTask : Type 0 where
  pub id : Bytes
  pub description : Bytes
  pub is_done : Bool

-- pb.MainTask
pub record PbMainTask : Type 0 where
  pub id : Bytes
  pub description : Bytes
  pub is_done : Bool
  pub due_date : Bytes
  pub recurrence : Bytes
  pub sub_tasks : List PbSubTask

-- pb.TaskList
pub record PbTaskList : Type 0 where
  pub id : Bytes
  pub parent_dir : Bytes
  pub title : Bytes
  pub tasks : List PbMainTask
  pub updated_at : ℕ
  pub is_auto_delete : Bool

pub record CreateTaskListRequest : Type 0 where
  pub parent_dir : Bytes
  pub title : Bytes
  pub tasks : List PbMainTask
  pub is_auto_delete : Bool

pub record UpdateTaskListRequest : Type 0 where
  pub id : Bytes
  pub title : Bytes
  pub tasks : List PbMainTask
  pub is_auto_delete : Bool

-- pb.UpcomingMainTask
pub record PbUpcomingMainTask : Type 0 where
  pub task_id : Bytes
  pub tasklist_id : Bytes
  pub title : Bytes
  pub due_date : Bytes
