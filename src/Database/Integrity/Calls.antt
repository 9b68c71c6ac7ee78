-- ===== src/Database/Integrity/Calls.antt =====
-- The methods of Database in package database, and the integrity of the tables.
use echolist_backend.Base.{
  ℕ, ◌+◌, true, not, Option, none, some, List, [], ◌∷◌, map, select, Bytes, ◌==◌, ◌≡◌, refl, arith,
}
use echolist_backend.Database.Types.{
  TaskListColumns, NoteRow, Tables, TaskRow, CreateTaskParams, task_params, TaskParamsList, nil,
  cons, CreateTaskListParams, UpdateTaskListParams, InsertNoteParams,
}
use echolist_backend.Database.Conn.Preserves.{
  Preserves, Preserves-exec, Preserves-write, Preserves-query, Preserves-bind, Preserves-pure,
  Preserves-fail, Preserves-if, Preserves-transaction,
}
use echolist_backend.Database.Sql.{list_ids, note_ids}
use echolist_backend.Database.Sql.Keys.{Unique, Unique-select}
use echolist_backend.Database.Notes.{
  insert_note, update_note, delete_note, note_with_id, retitled, found_row,
}
use echolist_backend.Database.Helpers.{insert_task, insert_tasks, of_task_list}
use echolist_backend.Database.TaskLists.{
  create_task_list, update_list_rows, update_task_list, delete_task_list, set_list_columns,
  list_with_id,
}
use echolist_backend.Database.Folders.{
  delete_by_parent_dir, in_deleted_dir, rename_parent_dir, note_dirs, list_dirs,
}
use echolist_backend.Database.Integrity.{one_owner, IsIntegral}
use echolist_backend.Database.Integrity.Rows.{
  insert_task_row-IsIntegral, insert_list_row-IsIntegral, insert_note_row-IsIntegral,
  delete_tasks-IsIntegral, delete_lists-IsIntegral,
}

-- A change of the notes that keeps their keys distinct.
notes-IsIntegral :
    (g : List NoteRow → List NoteRow) (t : Tables)
    → Unique (note_ids (g t.notes))
    → IsIntegral t
    → IsIntegral (record t { notes = g t.notes })
notes-IsIntegral g t u i = record {
  lists_present = i.lists_present;
  parents_present = i.parents_present;
  owners = i.owners;
  list_keys = i.list_keys;
  task_keys = i.task_keys;
  note_keys = u;
}

-- A change of the lists that keeps every key.
lists-IsIntegral :
    (g : TaskListColumns → TaskListColumns) (t : Tables)
    → list_ids (map g t.task_lists) ≡ list_ids t.task_lists
    → IsIntegral t
    → IsIntegral (record t { task_lists = map g t.task_lists })
lists-IsIntegral g t e i = record {
  lists_present = rw e i.lists_present;
  parents_present = i.parents_present;
  owners = i.owners;
  list_keys = rw e i.list_keys;
  task_keys = i.task_keys;
  note_keys = i.note_keys;
}

module _ {ℓ} {A : Type ℓ} (key : A → Bytes) (g : A → A) (same : (a : A) → key (g a) ≡ key a) where
  map-keys : (xs : List A) → map key (map g xs) ≡ map key xs
  map-keys [] = refl
  map-keys (x ∷ xs) = cc (same x, map-keys xs)

abbrev note_key : NoteRow → Bytes
note_key n = n.id

abbrev list_key : TaskListColumns → Bytes
list_key l = l.id

retitled-id :
    (id title preview : Bytes) (time : ℕ) (n : NoteRow)
    → note_key (retitled id title preview time n) ≡ note_key n
retitled-id id title preview time n = ground arith

set_list_columns-id :
    (params : UpdateTaskListParams) (l : TaskListColumns)
    → list_key (set_list_columns params l) ≡ list_key l
set_list_columns-id params l = ground arith

pub insert_note-Preserves : (params : InsertNoteParams) → Preserves IsIntegral (insert_note params)
unfolding insert_note
insert_note-Preserves params = Preserves-exec _ (insert_note_row-IsIntegral _)

pub update_note-Preserves :
    (id title preview : Bytes) (updated_at : ℕ)
    → Preserves IsIntegral (update_note id title preview updated_at)
unfolding update_note
update_note-Preserves id title preview updated_at =
    Preserves-bind _ _
      (Preserves-write _ _ (λ t i.
        notes-IsIntegral (map (retitled id title preview updated_at)) t
          (rw
            (map-keys note_key (retitled id title preview updated_at)
              (retitled-id id title preview updated_at) t.notes)
            i.note_keys)
          i))
      (λ n. Preserves-if (n == 0) (Preserves-fail _) (Preserves-pure _))

pub delete_note-Preserves : (id : Bytes) → Preserves IsIntegral (delete_note id)
unfolding delete_note
delete_note-Preserves id =
    Preserves-bind _ _
      (Preserves-write _ _ (λ t i.
        notes-IsIntegral (select (λ n. not (note_with_id id n))) t
          (Unique-select note_key (λ n. not (note_with_id id n)) t.notes i.note_keys) i))
      (λ n. Preserves-pure _)

-- The caller gives either the list or the parent.
mutual
  unfolding insert_task

  insert_task-Preserves :
      (task : CreateTaskParams) (list parent : Option Bytes) (i : ℕ) (rows : List TaskRow)
      → one_owner list parent ≡ true
      → Preserves IsIntegral (insert_task task list parent i rows)
  insert_task-Preserves (task_params id description is_done due_date recurrence subs) list parent i
        rows o =
      Preserves-bind _ _
        (Preserves-exec _ (λ t a t' e h. insert_task_row-IsIntegral _ t a t' o e h))
        (λ u. insert_tasks-Preserves subs none (some id) 0 _ refl)

  insert_tasks-Preserves :
      (tasks : TaskParamsList) (list parent : Option Bytes) (i : ℕ) (rows : List TaskRow)
      → one_owner list parent ≡ true
      → Preserves IsIntegral (insert_tasks tasks list parent i rows)
  insert_tasks-Preserves nil list parent i rows o = Preserves-pure rows
  insert_tasks-Preserves (cons task tasks) list parent i rows o =
      Preserves-bind _ _ (insert_task-Preserves task list parent i rows o)
        (λ rows'. insert_tasks-Preserves tasks list parent (i + 1) rows' o)

pub create_task_list-Preserves :
    (params : CreateTaskListParams) → Preserves IsIntegral (create_task_list params)
unfolding create_task_list
create_task_list-Preserves params =
    Preserves-bind _ _
      (Preserves-transaction _ (
        Preserves-bind _ _ (Preserves-exec _ (insert_list_row-IsIntegral _))
          (λ u. insert_tasks-Preserves params.tasks (some params.id) none 0 [] refl)))
      (λ rows. Preserves-pure _)

found_row-Preserves : {A : Type 0} (o : Option A) → Preserves IsIntegral (found_row o)
found_row-Preserves none = Preserves-fail _
found_row-Preserves (some a) = Preserves-pure a

update_list_rows-Preserves :
    (params : UpdateTaskListParams) → Preserves IsIntegral (update_list_rows params)
unfolding update_list_rows
update_list_rows-Preserves params = Preserves-bind _ _ (Preserves-query _) (λ row.
    Preserves-bind _ _ (found_row-Preserves row) (λ l.
      Preserves-bind _ _
        (Preserves-write _ _ (λ t i.
          lists-IsIntegral (set_list_columns params) t
            (map-keys list_key _ (set_list_columns-id params) t.task_lists) i))
        (λ u.
          Preserves-bind _ _
            (Preserves-write _ _
              (λ t i. delete_tasks-IsIntegral (of_task_list params.id t.tasks) t i))
            (λ u'.
              Preserves-bind _ _
                (insert_tasks-Preserves params.tasks (some params.id) none 0 [] refl)
                (λ rows. Preserves-pure _)))))

pub update_task_list-Preserves :
    (params : UpdateTaskListParams) → Preserves IsIntegral (update_task_list params)
unfolding update_task_list
update_task_list-Preserves params =
    Preserves-bind _ _ (Preserves-transaction _ (update_list_rows-Preserves params))
      (λ found. Preserves-pure _)

pub delete_task_list-Preserves : (id : Bytes) → Preserves IsIntegral (delete_task_list id)
unfolding delete_task_list
delete_task_list-Preserves id =
    Preserves-bind _ _ (Preserves-write _ _ (λ t i. delete_lists-IsIntegral (list_with_id id) t i))
      (λ n. Preserves-pure _)

pub delete_by_parent_dir-Preserves :
    (dir_path : Bytes) → Preserves IsIntegral (delete_by_parent_dir dir_path)
unfolding delete_by_parent_dir
delete_by_parent_dir-Preserves dir_path = Preserves-transaction _ (
    Preserves-bind _ _
      (Preserves-write _ _ (λ t i.
        notes-IsIntegral (select (λ n. not (in_deleted_dir dir_path n.parent_dir))) t
          (Unique-select note_key (λ n. not (in_deleted_dir dir_path n.parent_dir)) t.notes
            i.note_keys)
          i))
      (λ u.
        Preserves-bind _ _
          (Preserves-write _ _
            (λ t i. delete_lists-IsIntegral (λ l. in_deleted_dir dir_path l.parent_dir) t i))
          (λ u'. Preserves-pure _)))

note_dirs-IsIntegral : (f : Bytes → Bytes) (t : Tables) → IsIntegral t → IsIntegral (note_dirs f t)
note_dirs-IsIntegral f t i =
    notes-IsIntegral (map (λ (n : NoteRow). record n { parent_dir = f n.parent_dir })) t
      (rw
        (map-keys note_key (λ (n : NoteRow). record n { parent_dir = f n.parent_dir }) (λ n. refl)
          t.notes)
        i.note_keys)
      i

list_dirs-IsIntegral : (f : Bytes → Bytes) (t : Tables) → IsIntegral t → IsIntegral (list_dirs f t)
list_dirs-IsIntegral f t i =
    lists-IsIntegral (λ (l : TaskListColumns). record l { parent_dir = f l.parent_dir }) t
      (map-keys list_key _ (λ l. refl) t.task_lists) i

pub rename_parent_dir-Preserves :
    (old_path new_path : Bytes) → Preserves IsIntegral (rename_parent_dir old_path new_path)
unfolding rename_parent_dir
rename_parent_dir-Preserves old_path new_path = Preserves-transaction _ (
    Preserves-bind _ _ (Preserves-write _ _ (note_dirs-IsIntegral _)) (λ u.
      Preserves-bind _ _ (Preserves-write _ _ (note_dirs-IsIntegral _)) (λ u'.
        Preserves-bind _ _ (Preserves-write _ _ (list_dirs-IsIntegral _)) (λ v.
          Preserves-bind _ _ (Preserves-write _ _ (list_dirs-IsIntegral _))
            (λ v'. Preserves-pure _)))))
