-- ===== src/Database/Notes.antt =====
-- database/notes.go
pub mod Laws
use echolist_backend.Base.{
  ℕ, Bool, Option, none, some, List, [], ◌∷◌, ◌++◌, map, select, find_first, length, ltb, ◌==◌, not,
  if◌then◌else◌, Bytes, str_eq, contains,
}
use echolist_backend.Base.Action.{Result, ok, err, Action, pure, fail, ◌>>=◌}
use echolist_backend.Database.Types.{NoteRow, InsertNoteParams, Tables}
use echolist_backend.Database.Conn.{Conn, DbError, not_found, constraint, exec, query}
use echolist_backend.Database.Sql.{note_ids}

-- INSERT INTO notes: the PRIMARY KEY
unfoldable pub insert_note_row : NoteRow → Tables → Result DbError (Unit {0} × Tables)
insert_note_row n t =
    if contains (note_ids t.notes) n.id
    then err constraint
    else ok (tt, record t { notes = t.notes ++ (n ∷ []) })

unfoldable pub insert_note : InsertNoteParams → Action Conn DbError (Unit {0})
unfolding exec insert_note_row
insert_note params = exec (
    insert_note_row (record {
      id = params.id;
      title = params.title;
      parent_dir = params.parent_dir;
      preview = params.preview;
      created_at = params.created_at;
      updated_at = params.updated_at;
    }))

abbrev pub note_with_id : Bytes → NoteRow → Bool
note_with_id id n = str_eq n.id id

-- sql.ErrNoRows becomes ErrNotFound.
abbrev pub found_row : {A : Type 0} → Option A → Action Conn DbError A
found_row none = fail not_found
found_row (some a) = pure a

unfoldable pub get_note : Bytes → Action Conn DbError NoteRow
unfolding query
get_note id = do row ← query (λ t. find_first (note_with_id id) t.notes); found_row row

abbrev pub retitled : Bytes → Bytes → Bytes → ℕ → NoteRow → NoteRow
retitled id title preview updated_at n =
    if str_eq n.id id
    then record n { title = title; preview = preview; updated_at = updated_at }
    else n

unfoldable pub update_note : Bytes → Bytes → Bytes → ℕ → Action Conn DbError (Unit {0})
unfolding exec
update_note id title preview updated_at = do
  n ← exec λ t. ok (
    length (select (note_with_id id) t.notes),
    record t { notes = map (retitled id title preview updated_at) t.notes },
  )
  if n == 0 then fail not_found else pure tt

unfoldable pub delete_note : Bytes → Action Conn DbError Bool
unfolding exec
delete_note id = do
  n ← exec λ t. ok (
    length (select (note_with_id id) t.notes),
    record t { notes = select (λ n. not (note_with_id id n)) t.notes },
  )
  pure (ltb 0 n)

unfoldable pub list_notes : Bytes → Action Conn DbError (List NoteRow)
unfolding query
list_notes parent_dir = query (λ t. select (λ n. str_eq n.parent_dir parent_dir) t.notes)
