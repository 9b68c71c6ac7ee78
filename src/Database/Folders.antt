-- ===== src/Database/Folders.antt =====
-- database/folders.go
pub mod Prefix
pub mod Renaming
pub mod Effects
use echolist_backend.Base.{
  ℕ, ◌+◌, Bool, false, ◌||◌, not, [], ◌∷◌, ◌++◌, map, select, length, ◌==◌, if◌then◌else◌, Bytes,
  bytes, str_eq,
}
use echolist_backend.Base.Action.{ok, Action, pure, ◌>>◌}
use echolist_backend.Database.Types.{TaskListColumns, NoteRow, Tables}
use echolist_backend.Database.Conn.{Conn, DbError, exec, query, transaction}
use echolist_backend.Database.Sql.{delete_lists, substr, like}

unfoldable pub count_children_in_dir : Bytes → Action Conn DbError ℕ
unfolding query
count_children_in_dir parent_dir = query λ t.
    length (select (λ (n : NoteRow). str_eq n.parent_dir parent_dir) t.notes)
    + length (select (λ (l : TaskListColumns). str_eq l.parent_dir parent_dir) t.task_lists)

-- The loop over the bytes of `s`, from the one at hand on.
unfoldable pub escape_like : Bytes → Bytes
escape_like [] = []
escape_like (c ∷ s) =
    let rest = escape_like s in
    if c == b'%' || c == b'_' || c == 92 then 92 ∷ c ∷ rest else c ∷ rest

-- parent_dir LIKE escapeLike(prefix)+"%" ESCAPE '\'
unfoldable pub under_prefix : Bytes → Bytes → Bool
unfolding like escape_like
under_prefix prefix dir = like false (escape_like prefix ++ (b'%' ∷ [])) dir

-- The WHERE clause of both statements of DeleteByParentDir.
unfoldable pub in_deleted_dir : Bytes → Bytes → Bool
unfolding under_prefix
in_deleted_dir dir_path dir = str_eq dir dir_path || under_prefix (dir_path ++ bytes "/") dir

unfoldable pub delete_by_parent_dir : Bytes → Action Conn DbError (Unit {0})
unfolding exec transaction delete_lists in_deleted_dir
delete_by_parent_dir dir_path = transaction do
  exec λ t.
      ok (tt, record t { notes = select (λ n. not (in_deleted_dir dir_path n.parent_dir)) t.notes })
  exec λ t. ok (tt, (delete_lists (λ l. in_deleted_dir dir_path l.parent_dir) t).1)
  pure tt

-- The first UPDATE of a table: the rows directly in the folder.
abbrev pub rename_exact : Bytes → Bytes → Bytes → Bytes
rename_exact old new dir = if str_eq dir old then new else dir

-- The second one: newPrefix || SUBSTR(parent_dir, len(oldPrefix)+1) where the old prefix matches.
unfoldable pub rename_prefix : Bytes → Bytes → Bytes → Bytes
unfolding substr under_prefix
rename_prefix old new dir =
    if under_prefix (old ++ bytes "/") dir
    then (new ++ bytes "/") ++ substr dir (length (old ++ bytes "/") + 1)
    else dir

abbrev pub note_dirs : (Bytes → Bytes) → Tables → Tables
note_dirs f t = record t {
  notes = map (λ (n : NoteRow). record n { parent_dir = f n.parent_dir }) t.notes;
}

abbrev pub list_dirs : (Bytes → Bytes) → Tables → Tables
list_dirs f t = record t {
  task_lists = map (λ (l : TaskListColumns). record l { parent_dir = f l.parent_dir }) t.task_lists;
}

unfoldable pub rename_parent_dir : Bytes → Bytes → Action Conn DbError (Unit {0})
unfolding exec transaction rename_prefix
rename_parent_dir old_path new_path = transaction do
  exec λ t. ok (tt, note_dirs (rename_exact old_path new_path) t)
  exec λ t. ok (tt, note_dirs (rename_prefix old_path new_path) t)
  exec λ t. ok (tt, list_dirs (rename_exact old_path new_path) t)
  exec λ t. ok (tt, list_dirs (rename_prefix old_path new_path) t)
  pure tt
