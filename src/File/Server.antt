-- ===== src/File/Server.antt =====
-- The handlers of FileServer, in file/*.go. As in package notes a handler runs alone, and log
-- records are left out.
pub mod Creating
pub mod Deleting
pub mod Listing
pub mod Updating
use echolist_backend.Base.{
  ℕ, ◌+◌, ◌%◌, ◌^◌, Bool, true, false, not, Option, none, some, List, [], ◌∷◌, ◌++◌, map, select,
  length, ◌==◌, if◌then◌else◌, Bytes, bytes, str_eq,
}
use echolist_backend.Base.Action.{Result, ok, err, Action, pure, fail, lift, ◌>>=◌, ◌>>◌}
use echolist_backend.Common.Errors.{
  ConnectError, new_error, invalid_argument, internal, already_exists, folder_path_empty,
  folder_exists, failed_to_create_folder, failed_to_delete_entries, failed_to_delete_folder,
  failed_to_rename_folder, failed_to_update_entries, failed_to_read_directory,
  failed_to_query_task_lists, failed_to_query_notes,
}
use echolist_backend.Common.Filepath.{join, dir, base}
use echolist_backend.Common.Names.{validate_name}
use echolist_backend.Common.Paths.{Os}
use echolist_backend.Common.Disk.{Node, Disk, IoError, stat, rename}
use echolist_backend.Common.Disk.Folders.{DirEntry, mkdir, remove_all, read_dir}
use echolist_backend.Database.Conn.{DbError}
use echolist_backend.Database.Answers.{ok_or}
use echolist_backend.Database.Types.{NoteRow, TaskListRow}
use echolist_backend.Database.Folders
use echolist_backend.Database.TaskLists
use echolist_backend.Database.Notes
use echolist_backend.Service.{
  World, Handler, on_db, on_fs, done_or, valid_path, valid_parent_dir, required_dir,
}

-- The messages of proto/file/v1. An int32 is its residue modulo 2^32.
pub record Folder : Type 0 where
  pub path : Bytes
  pub name : Bytes

pub data Metadata : Type 0 where
  folder_metadata : (child_count : ℕ) → Metadata
  task_list_metadata :
      (id : Bytes) (updated_at : ℕ) (total_task_count : ℕ) (done_task_count : ℕ) → Metadata
  note_metadata : (id : Bytes) (updated_at : ℕ) (preview : Bytes) → Metadata

-- The item type is told by the metadata.
pub record FileEntry : Type 0 where
  pub path : Bytes
  pub title : Bytes
  pub metadata : Metadata

abbrev pub as_int32 : ℕ → ℕ
as_int32 n = n % 2 ^ 32

abbrev pub ends_with_slash : Bytes → Bool
ends_with_slash [] = false
ends_with_slash (c ∷ []) = c == b'/'
ends_with_slash (c ∷ d ∷ s) = ends_with_slash (d ∷ s)

-- entryPath
unfoldable pub entry_path : Bytes → Bytes → Bytes
entry_path parent name =
    if str_eq parent []
    then name
    else if ends_with_slash parent
    then parent ++ name
    else parent ++ (bytes "/" ++ name)

-- An error of ReadDir or of the query only leaves its part out of the count.
abbrev pub count_dirs : Result IoError (List DirEntry) → ℕ
count_dirs (ok entries) = as_int32 (length (select (λ (e : DirEntry). e.is_dir) entries))
count_dirs (err e) = 0

abbrev pub add_children : ℕ → Result DbError ℕ → ℕ
add_children n (ok count) = as_int32 (n + as_int32 count)
add_children n (err e) = n

-- buildFolderEntry
unfoldable pub build_folder_entry : Bytes → Bytes → Bytes → Handler FileEntry
unfolding entry_path read_dir Folders.count_children_in_dir
build_folder_entry abs_path name parent = do
  entries ← on_fs (read_dir abs_path)
  count ← on_db (Folders.count_children_in_dir (entry_path parent name))
  pure (record {
    path = entry_path parent name;
    title = name;
    metadata = folder_metadata (add_children (count_dirs entries) count);
  })

-- The loop of ListFiles over the directory's entries.
unfoldable pub build_folder_entries : Bytes → Bytes → List DirEntry → Handler (List FileEntry)
unfolding build_folder_entry join
build_folder_entries parent_dir parent [] = pure []
build_folder_entries parent_dir parent (e ∷ es) =
    let later = build_folder_entries parent_dir parent es in
    if e.is_dir
    then (do
      entry ← build_folder_entry (join parent_dir e.name) e.name parent
      rest ← later
      pure (entry ∷ rest))
    else later

unfoldable pub task_list_entry : Bytes → TaskListRow → FileEntry
unfolding entry_path
task_list_entry parent row = record {
  path = entry_path parent row.title;
  title = row.title;
  metadata =
      task_list_metadata row.id row.updated_at (as_int32 row.total_task_count)
        (as_int32 row.done_task_count);
}

unfoldable pub note_entry : Bytes → NoteRow → FileEntry
unfolding entry_path
note_entry parent row = record {
  path = entry_path parent (row.title ++ (bytes "_" ++ (row.id ++ bytes ".md")));
  title = row.title;
  metadata = note_metadata row.id row.updated_at row.preview;
}

-- A Stat without an error: the name is taken.
abbrev pub free_or_error : Result IoError Node → Handler (Unit {0})
free_or_error (ok n) = fail (new_error already_exists folder_exists)
free_or_error (err e) = pure tt

abbrev pub path_or_error : Bytes → Handler (Unit {0})
path_or_error [] = fail (new_error invalid_argument folder_path_empty)
path_or_error (c ∷ s) = pure tt

-- UpdateFolder tests for a sibling only if the name changes.
abbrev pub free_if_renamed : Bytes → Bool → Handler (Unit {0})
free_if_renamed new_path true = pure tt
free_if_renamed new_path false = do s ← on_fs (stat new_path); free_or_error s

-- The rename is undone if the rows could not be moved.
abbrev pub moved_or_renamed_back : Bytes → Bytes → Result DbError (Unit {0}) → Handler (Unit {0})
moved_or_renamed_back old_path new_path (ok u) = pure tt
moved_or_renamed_back old_path new_path (err e) = do
  back ← on_fs (rename new_path old_path)
  fail (new_error internal failed_to_update_entries)

-- The path of a folder whose last segment is replaced.
unfoldable pub new_rel_path : Bytes → Bytes → Bytes
unfolding dir
new_rel_path folder_path new_name =
    if str_eq (dir folder_path) (bytes ".")
    then new_name
    else dir folder_path ++ (bytes "/" ++ new_name)

-- os: what the disk shows to EvalSymlinks and Stat.
module _ (os : Disk → Os) (data_dir : Bytes) where
  unfoldable pub create_folder : Bytes → Bytes → Handler Folder
  unfolding validate_name valid_parent_dir required_dir join stat mkdir
  create_folder parent_dir_rel name = do
    lift (validate_name name)
    parent_dir ← valid_parent_dir os data_dir parent_dir_rel
    required_dir os parent_dir
    let new_dir = join parent_dir name
    s ← on_fs (stat new_dir)
    free_or_error s
    m ← on_fs (mkdir new_dir)
    done_or failed_to_create_folder m
    pure (record { path = join parent_dir_rel name ++ bytes "/"; name = name })

  unfoldable pub delete_folder : Bytes → Handler (Unit {0})
  unfolding valid_path required_dir Folders.delete_by_parent_dir remove_all
  delete_folder folder_path = do
    path_or_error folder_path
    target ← valid_path os data_dir folder_path
    required_dir os target
    d ← on_db (Folders.delete_by_parent_dir folder_path)
    ok_or failed_to_delete_entries d
    r ← on_fs (remove_all target)
    done_or failed_to_delete_folder r

  unfoldable pub update_folder : Bytes → Bytes → Handler Folder
  unfolding validate_name valid_path required_dir join dir base stat rename new_rel_path
      Folders.rename_parent_dir
  update_folder folder_path new_name = do
    lift (validate_name new_name)
    path_or_error folder_path
    old_path ← valid_path os data_dir folder_path
    required_dir os old_path
    let new_path = join (dir old_path) new_name
    free_if_renamed new_path (str_eq new_name (base old_path))
    r ← on_fs (rename old_path new_path)
    done_or failed_to_rename_folder r
    let new_rel = new_rel_path folder_path new_name
    u ← on_db (Folders.rename_parent_dir folder_path new_rel)
    moved_or_renamed_back old_path new_path u
    pure (record { path = new_rel ++ bytes "/"; name = new_name })

  unfoldable pub list_files : Bytes → Handler (List FileEntry)
  unfolding valid_parent_dir required_dir read_dir build_folder_entries task_list_entry note_entry
      TaskLists.list_task_lists_with_counts Notes.list_notes
  list_files parent = do
    parent_dir ← valid_parent_dir os data_dir parent
    required_dir os parent_dir
    r ← on_fs (read_dir parent_dir)
    entries ← done_or failed_to_read_directory r
    folders ← build_folder_entries parent_dir parent entries
    t ← on_db (TaskLists.list_task_lists_with_counts parent)
    lists ← ok_or failed_to_query_task_lists t
    n ← on_db (Notes.list_notes parent)
    notes ← ok_or failed_to_query_notes n
    pure (folders ++ (map (task_list_entry parent) lists ++ map (note_entry parent) notes))
