-- ===== src/Database/Upcoming.antt =====
-- database/upcoming_main_tasks.go
use echolist_backend.Base.{
  Bool, false, ◌&&◌, Option, none, some, List, [], map, select, ◌==◌, Bytes, str_le,
}
use echolist_backend.Base.Action.{Action}
use echolist_backend.Database.Types.{TaskColumns, UpcomingMainTaskRow}
use echolist_backend.Database.Conn.{Conn, DbError, query}
use echolist_backend.Database.Sql.{order_by, text_then}
use echolist_backend.Database.Helpers.{rank}

-- due_date >= ?; a NULL is in no order.
abbrev pub due_from : Bytes → Option Bytes → Bool
due_from from_date none = false
due_from from_date (some d) = str_le from_date d

-- task_list_id IS NOT NULL AND is_done = 0 AND due_date >= ?
unfoldable pub is_upcoming : Bytes → TaskColumns → Bool
is_upcoming from_date r = rank r == 0 && r.is_done == 0 && due_from from_date r.due_date

abbrev pub text_or_empty : Option Bytes → Bytes
text_or_empty none = []
text_or_empty (some s) = s

-- ORDER BY due_date, id
unfoldable pub upcoming_le : TaskColumns → TaskColumns → Bool
upcoming_le a b = text_then (text_or_empty a.due_date) (text_or_empty b.due_date) (str_le a.id b.id)

abbrev pub scan_upcoming : TaskColumns → UpcomingMainTaskRow
scan_upcoming r = record {
  task_id = r.id;
  task_list_id = text_or_empty r.task_list_id;
  title = r.description;
  due_date = text_or_empty r.due_date;
}

unfoldable pub list_upcoming_main_tasks : Bytes → Action Conn DbError (List UpcomingMainTaskRow)
unfolding query is_upcoming upcoming_le order_by
list_upcoming_main_tasks from_date =
    query λ t. map scan_upcoming (order_by upcoming_le (select (is_upcoming from_date) t.tasks))
