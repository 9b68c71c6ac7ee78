-- ===== src/Notes/Server.antt =====
-- The handlers of NotesServer, in notes/*.go. The locks on file paths (common/pathlock.go) keep
-- two handlers from one file; here a handler runs alone. Log records are left out.
pub mod Reading
pub mod Listing
pub mod Creating
pub mod Deleting
pub mod Updating
use echolist_backend.Base.{
  ℕ, ◌+◌, Bool, true, false, Option, none, some, List, [], ◌∷◌, ◌++◌, if◌then◌else◌, Bytes, bytes,
  str_eq,
}
use echolist_backend.Base.Action.{Result, ok, err, Action, pure, fail, lift, ◌>>=◌, ◌>>◌}
use echolist_backend.Common.Errors.{
  ConnectError, new_error, not_found, internal, already_exists, note_already_exists, note_not_found,
  failed_to_write_note, failed_to_stat_note, failed_to_read_note, failed_to_persist_note,
  failed_to_query_note, failed_to_delete_note, failed_to_list_notes, failed_to_rename_note,
  failed_to_update_note,
}
use echolist_backend.Common.Filepath.{join}
use echolist_backend.Common.Names.{validate_name, validate_content_length, max_note_content_bytes}
use echolist_backend.Common.Uuid.{validate_uuid_v4}
use echolist_backend.Common.Paths.{Os}
use echolist_backend.Common.Disk.{
  Node, regular, folder, Disk, IoError, exist, no_entry, other, stat, read_file, remove, rename,
}
use echolist_backend.Common.AtomicWrite.{create_exclusive, write_atomically}
use echolist_backend.Database.Conn.{DbError, fault}
use echolist_backend.Database.Answers.{found_or, ok_or}
use echolist_backend.Database.Types.{NoteRow}
use echolist_backend.Database.Notes
use echolist_backend.Service.{
  World, Handler, on_db, on_fs, there_or, done_or, valid_parent_dir, required_dir,
}
use echolist_backend.Notes.Preview.{compute_preview}

-- The messages of proto/notes/v1.
pub record PbNote : Type 0 where
  pub id : Bytes
  pub title : Bytes
  pub content : Bytes
  pub updated_at : ℕ
  pub parent_dir : Bytes

pub record CreateNoteRequest : Type 0 where
  pub title : Bytes
  pub content : Bytes
  pub parent_dir : Bytes

pub record UpdateNoteRequest : Type 0 where
  pub id : Bytes
  pub title : Bytes
  pub content : Bytes

-- NotePath of notes/note_path.go
unfoldable pub note_path : Bytes → Bytes → Bytes → Bytes
note_path parent_dir title id =
    let filename = title ++ (bytes "_" ++ (id ++ bytes ".md")) in
    if str_eq parent_dir [] then filename else parent_dir ++ (bytes "/" ++ filename)

-- ModTime().UnixMilli(). A directory's time is not kept: no handler gets one here, since both
-- ask for the time of a file that they have just written.
abbrev pub mod_time : Node → ℕ
mod_time (regular c t) = t
mod_time folder = 0

-- How CreateNote answers to an error of CreateExclusive.
abbrev pub written_or_error : Result IoError (Unit {0}) → Handler (Unit {0})
written_or_error (ok u) = pure tt
written_or_error (err exist) = fail (new_error already_exists note_already_exists)
written_or_error (err no_entry) = fail (new_error internal failed_to_write_note)
written_or_error (err other) = fail (new_error internal failed_to_write_note)

-- The file is removed again if the row could not be inserted.
abbrev pub persisted_or_removed : Bytes → Result DbError (Unit {0}) → Handler (Unit {0})
persisted_or_removed abs_path (ok u) = pure tt
persisted_or_removed abs_path (err e) = do
  removed ← on_fs (remove abs_path)
  fail (new_error internal failed_to_persist_note)

-- The note of a row, with the content of its file.
abbrev pub note_of : NoteRow → Bytes → PbNote
note_of row content = record {
  id = row.id;
  title = row.title;
  content = content;
  updated_at = row.updated_at;
  parent_dir = row.parent_dir;
}

module _ (data_dir : Bytes) where
  unfoldable pub row_path : NoteRow → Bytes
  unfolding note_path join
  row_path row = join data_dir (note_path row.parent_dir row.title row.id)

  unfoldable pub get_note : Bytes → Handler PbNote
  unfolding validate_uuid_v4 Notes.get_note row_path read_file
  get_note id = do
    lift (validate_uuid_v4 id)
    g ← on_db (Notes.get_note id)
    row ← found_or note_not_found failed_to_query_note g
    r ← on_fs (read_file (row_path row))
    content ← there_or note_not_found failed_to_read_note r
    pure (note_of row content)

  -- A file that is missing is no error of DeleteNote.
  abbrev pub gone_or_error : Result IoError (Unit {0}) → Handler (Unit {0})
  gone_or_error (ok u) = pure tt
  gone_or_error (err no_entry) = pure tt
  gone_or_error (err exist) = fail (new_error internal failed_to_delete_note)
  gone_or_error (err other) = fail (new_error internal failed_to_delete_note)

  abbrev pub deleted_or_error : Bool → Handler (Unit {0})
  deleted_or_error true = pure tt
  deleted_or_error false = fail (new_error not_found note_not_found)

  unfoldable pub delete_note : Bytes → Handler (Unit {0})
  unfolding validate_uuid_v4 Notes.get_note row_path remove Notes.delete_note
  delete_note id = do
    lift (validate_uuid_v4 id)
    g ← on_db (Notes.get_note id)
    row ← found_or note_not_found failed_to_query_note g
    r ← on_fs (remove (row_path row))
    gone_or_error r
    d ← on_db (Notes.delete_note id)
    deleted ← ok_or failed_to_delete_note d
    deleted_or_error deleted

  -- The content of a listed note; nothing for a file that is missing.
  abbrev pub listed_or_error : Result IoError Bytes → Handler (Option Bytes)
  listed_or_error (ok content) = pure (some content)
  listed_or_error (err no_entry) = pure none
  listed_or_error (err exist) = fail (new_error internal failed_to_read_note)
  listed_or_error (err other) = fail (new_error internal failed_to_read_note)

  abbrev pub append_listed : NoteRow → Option Bytes → List PbNote → List PbNote
  append_listed row none notes = notes
  append_listed row (some content) notes = note_of row content ∷ notes

  -- The loop of ListNotes over the rows.
  unfoldable pub read_notes : List NoteRow → Handler (List PbNote)
  unfolding row_path read_file
  read_notes [] = pure []
  read_notes (row ∷ rows) = do
    r ← on_fs (read_file (row_path row))
    content ← listed_or_error r
    rest ← read_notes rows
    pure (append_listed row content rest)

  -- UpdateNote renames the file only if the path changes.
  abbrev pub rename_if_moved : Bytes → Bytes → Bool → Handler Bool
  rename_if_moved old new true = pure false
  rename_if_moved old new false = do
    r ← on_fs (rename old new)
    there_or note_not_found failed_to_rename_note r
    pure true

  -- The rename is undone.
  abbrev pub renamed_back : Bytes → Bytes → Bool → Handler (Unit {0})
  renamed_back old new false = pure tt
  renamed_back old new true = do back ← on_fs (rename new old); pure tt

  abbrev pub written_or_renamed_back :
      Bytes → Bytes → Bool → Result IoError (Unit {0}) → Handler (Unit {0})
  written_or_renamed_back old new was_renamed (ok u) = pure tt
  written_or_renamed_back old new was_renamed (err e) = do
    renamed_back old new was_renamed
    fail (new_error internal failed_to_update_note)

  abbrev pub updated_or_renamed_back :
      Bytes → Bytes → Bool → Result DbError (Unit {0}) → Handler (Unit {0})
  updated_or_renamed_back old new was_renamed (ok u) = pure tt
  updated_or_renamed_back old new was_renamed (err DbError.not_found) =
      fail (new_error not_found note_not_found)
  updated_or_renamed_back old new was_renamed (err DbError.constraint) = do
    renamed_back old new was_renamed
    fail (new_error internal failed_to_update_note)
  updated_or_renamed_back old new was_renamed (err (fault f)) = do
    renamed_back old new was_renamed
    fail (new_error internal failed_to_update_note)

  unfoldable pub update_note : UpdateNoteRequest → Handler PbNote
  unfolding validate_uuid_v4 validate_name validate_content_length Notes.get_note note_path join
      stat rename write_atomically compute_preview Notes.update_note
  update_note req = do
    lift (validate_uuid_v4 req.id)
    lift (validate_name req.title)
    lift (validate_content_length req.content max_note_content_bytes)
    g ← on_db (Notes.get_note req.id)
    row ← found_or note_not_found failed_to_query_note g
    let old = join data_dir (note_path row.parent_dir row.title row.id)
    let new = join data_dir (note_path row.parent_dir req.title row.id)
    s ← on_fs (stat old)
    there_or note_not_found failed_to_stat_note s
    was_renamed ← rename_if_moved old new (str_eq new old)
    written ← on_fs (write_atomically new req.content)
    written_or_renamed_back old new was_renamed written
    i ← on_fs (stat new)
    info ← done_or failed_to_stat_note i
    u ← on_db (Notes.update_note req.id req.title (compute_preview req.content) (mod_time info))
    updated_or_renamed_back old new was_renamed u
    pure (record {
      id = req.id;
      title = req.title;
      content = req.content;
      updated_at = mod_time info;
      parent_dir = row.parent_dir;
    })

-- os: what the disk shows to EvalSymlinks and Stat; new_string: what the n-th call of
-- uuid.NewString returns.
module _ (os : Disk → Os) (new_string : ℕ → Bytes) (data_dir : Bytes) where
  abbrev pub new_id : Handler Bytes
  new_id w = (ok (new_string w.issued), record w { issued = w.issued + 1 })

  unfoldable pub create_note : CreateNoteRequest → Handler PbNote
  unfolding valid_parent_dir validate_name validate_content_length required_dir note_path join
      create_exclusive stat compute_preview Notes.insert_note remove
  create_note req = do
    dir_path ← valid_parent_dir os data_dir req.parent_dir
    lift (validate_name req.title)
    lift (validate_content_length req.content max_note_content_bytes)
    required_dir os dir_path
    id ← new_id
    let abs_path = join data_dir (note_path req.parent_dir req.title id)
    created ← on_fs (create_exclusive abs_path req.content)
    written_or_error created
    i ← on_fs (stat abs_path)
    info ← done_or failed_to_stat_note i
    inserted ← on_db (
        Notes.insert_note (record {
          id = id;
          title = req.title;
          parent_dir = req.parent_dir;
          preview = compute_preview req.content;
          created_at = mod_time info;
          updated_at = mod_time info;
        }))
    persisted_or_removed abs_path inserted
    pure (record {
      id = id;
      title = req.title;
      content = req.content;
      updated_at = mod_time info;
      parent_dir = req.parent_dir;
    })

  unfoldable pub list_notes : Bytes → Handler (List PbNote)
  unfolding valid_parent_dir required_dir Notes.list_notes read_notes
  list_notes parent_dir = do
    root ← valid_parent_dir os data_dir parent_dir
    required_dir os root
    r ← on_db (Notes.list_notes parent_dir)
    rows ← ok_or failed_to_list_notes r
    read_notes data_dir rows
