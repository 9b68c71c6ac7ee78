-- ===== src/Database/Integrity/Rows.antt =====
-- The statements of package database, and the integrity of the tables of database/schema.go.
use mathlib.Core.List.{map-append}
use echolist_backend.Base.{
  Bool, true, false, not, Option, List, [], ◌∷◌, ◌++◌, select, Bytes, contains, ◌≡◌, arith,
  All-append, All-map, All-zip,
}
use echolist_backend.Base.Action.{ok}
use echolist_backend.Database.Types.{TaskListColumns, TaskColumns, NoteRow, Tables}
use echolist_backend.Database.Sql.{
  task_ids, list_ids, note_ids, satisfied, refers, insert_task_row, insert_list_row, delete_tasks,
  delete_lists,
}
use echolist_backend.Database.Notes.{insert_note_row}
use echolist_backend.Database.Sql.Keys.{
  Unique-append, Unique-select, satisfied-append, satisfied-select-not,
}
use echolist_backend.Database.Sql.Cascade.{
  delete_tasks-ParentsPresent, All-delete_tasks, Unique-delete_tasks, delete_tasks-All,
}
use echolist_backend.Database.Integrity.{HasOneOwner, IsIntegral}

-- What the checks of INSERT INTO tasks establish when they pass.
record Accepted (r : TaskColumns) (t t' : Tables) : Type 0 where
  fresh : contains (task_ids t.tasks) r.id ≡ false
  list_known : satisfied (list_ids t.task_lists) r.task_list_id ≡ true
  parent_known : satisfied (task_ids (t.tasks ++ (r ∷ []))) r.parent_task_id ≡ true
  after : t' ≡ record t { tasks = t.tasks ++ (r ∷ []) }

insert_task_row-Accepted :
    (r : TaskColumns) (t : Tables) (a : Unit {0}) (t' : Tables)
    → insert_task_row r t ≡ ok (a, t')
    → Accepted r t t'
unfolding insert_task_row
insert_task_row-Accepted r t a t' e = ground arith

pub insert_task_row-IsIntegral :
    (r : TaskColumns) (t : Tables) (a : Unit {0}) (t' : Tables)
    → HasOneOwner r
    → insert_task_row r t ≡ ok (a, t')
    → IsIntegral t
    → IsIntegral t'
insert_task_row-IsIntegral r t a t' o e i =
    let k = insert_task_row-Accepted r t a t' e in
    rw k.after (record {
      lists_present = All-append _ t.tasks (r ∷ []) i.lists_present (k.list_known, tt);
      parents_present =
          All-append _ t.tasks (r ∷ [])
            (All-map t.tasks
              (λ q h.
                rw map-append (satisfied-append (task_ids t.tasks) (r.id ∷ []) q.parent_task_id h))
              i.parents_present)
            (k.parent_known, tt);
      owners = All-append _ t.tasks (r ∷ []) i.owners (o, tt);
      list_keys = i.list_keys;
      task_keys = rw map-append (Unique-append (task_ids t.tasks) r.id i.task_keys k.fresh);
      note_keys = i.note_keys;
    })

record AcceptedList (l : TaskListColumns) (t t' : Tables) : Type 0 where
  fresh : contains (list_ids t.task_lists) l.id ≡ false
  after : t' ≡ record t { task_lists = t.task_lists ++ (l ∷ []) }

insert_list_row-Accepted :
    (l : TaskListColumns) (t : Tables) (a : Unit {0}) (t' : Tables)
    → insert_list_row l t ≡ ok (a, t')
    → AcceptedList l t t'
unfolding insert_list_row
insert_list_row-Accepted l t a t' e = ground arith

pub insert_list_row-IsIntegral :
    (l : TaskListColumns) (t : Tables) (a : Unit {0}) (t' : Tables)
    → insert_list_row l t ≡ ok (a, t')
    → IsIntegral t
    → IsIntegral t'
insert_list_row-IsIntegral l t a t' e i =
    let k = insert_list_row-Accepted l t a t' e in
    rw k.after (record {
      lists_present =
          All-map t.tasks
            (λ r h.
              rw map-append (satisfied-append (list_ids t.task_lists) (l.id ∷ []) r.task_list_id h))
            i.lists_present;
      parents_present = i.parents_present;
      owners = i.owners;
      list_keys = rw map-append (Unique-append (list_ids t.task_lists) l.id i.list_keys k.fresh);
      task_keys = i.task_keys;
      note_keys = i.note_keys;
    })

record AcceptedNote (n : NoteRow) (t t' : Tables) : Type 0 where
  fresh : contains (note_ids t.notes) n.id ≡ false
  after : t' ≡ record t { notes = t.notes ++ (n ∷ []) }

insert_note_row-Accepted :
    (n : NoteRow) (t : Tables) (a : Unit {0}) (t' : Tables)
    → insert_note_row n t ≡ ok (a, t')
    → AcceptedNote n t t'
unfolding insert_note_row
insert_note_row-Accepted n t a t' e = ground arith

pub insert_note_row-IsIntegral :
    (n : NoteRow) (t : Tables) (a : Unit {0}) (t' : Tables)
    → insert_note_row n t ≡ ok (a, t')
    → IsIntegral t
    → IsIntegral t'
insert_note_row-IsIntegral n t a t' e i =
    let k = insert_note_row-Accepted n t a t' e in
    rw k.after (record {
      lists_present = i.lists_present;
      parents_present = i.parents_present;
      owners = i.owners;
      list_keys = i.list_keys;
      task_keys = i.task_keys;
      note_keys = rw map-append (Unique-append (note_ids t.notes) n.id i.note_keys k.fresh);
    })

pub delete_tasks-IsIntegral :
    (p : TaskColumns → Bool) (t : Tables)
    → IsIntegral t
    → IsIntegral (record t { tasks = delete_tasks p t.tasks })
delete_tasks-IsIntegral p t i = record {
  lists_present = All-delete_tasks _ p t.tasks i.lists_present;
  parents_present = delete_tasks-ParentsPresent p t.tasks i.parents_present;
  owners = All-delete_tasks _ p t.tasks i.owners;
  list_keys = i.list_keys;
  task_keys = Unique-delete_tasks p t.tasks i.task_keys;
  note_keys = i.note_keys;
}

kept_list :
    (p : TaskListColumns → Bool) (lists : List TaskListColumns) (o : Option Bytes)
    → satisfied (list_ids lists) o ≡ true
    → not (refers (list_ids (select p lists)) o) ≡ true
    → satisfied (list_ids (select (λ l. not (p l)) lists)) o ≡ true
kept_list p lists o h k =
    ground (arith, satisfied-select-not (λ (l : TaskListColumns). l.id) p lists o)

pub delete_lists-IsIntegral :
    (p : TaskListColumns → Bool) (t : Tables) → IsIntegral t → IsIntegral (delete_lists p t).1
unfolding delete_lists
delete_lists-IsIntegral p t i =
    let gone = λ (r : TaskColumns). refers (list_ids (select p t.task_lists)) r.task_list_id in
    record {
      lists_present =
          All-map (delete_tasks gone t.tasks)
            (λ r h. kept_list p t.task_lists r.task_list_id h.0 h.1)
            (All-zip _ _ (delete_tasks gone t.tasks)
              (All-delete_tasks _ gone t.tasks i.lists_present) (delete_tasks-All gone t.tasks));
      parents_present = delete_tasks-ParentsPresent gone t.tasks i.parents_present;
      owners = All-delete_tasks _ gone t.tasks i.owners;
      list_keys =
          Unique-select (λ (l : TaskListColumns). l.id) (λ l. not (p l)) t.task_lists i.list_keys;
      task_keys = Unique-delete_tasks gone t.tasks i.task_keys;
      note_keys = i.note_keys;
    }
