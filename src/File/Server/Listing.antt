-- ===== src/File/Server/Listing.antt =====
-- ListFiles of file/list_files.go, when no call of the disk or of the database fails of itself.
use echolist_backend.Base.{
  ℕ, ◌+◌, ◌==◌, ◌&&◌, bytes, Bool, false, Option, none, some, List, [], ◌∷◌, ◌++◌, map, select,
  if◌then◌else◌, Bytes, str_eq,
}
use echolist_backend.Base.Action.{◌>>=◌}
use echolist_backend.Common.Filepath.{join}
use echolist_backend.Common.Disk.{Node, regular, folder, Disk, look}
use echolist_backend.Common.Disk.Folders.{DirEntry, children, by_name}
use echolist_backend.Database.Types.{TaskColumns, TaskListColumns, NoteRow, Tables}
use echolist_backend.Database.Folders
use echolist_backend.Database.TaskLists
use echolist_backend.Database.Notes
use echolist_backend.Service.{World}
use echolist_backend.Notes.Server.Reading.{in_dir}
use echolist_backend.File.Server.{
  FileEntry, folder_metadata, task_list_metadata, note_metadata, as_int32, entry_path,
}

-- The task lists directly in a directory, in the order of the table.
abbrev pub lists_in : Bytes → Tables → List TaskListColumns
lists_in dir t = select (λ l. str_eq l.parent_dir dir) t.task_lists

-- How many have a property.
abbrev pub tally : {A : Type 0} → (A → Bool) → List A → ℕ
tally p [] = 0
tally p (x ∷ xs) = (if p x then 1 else 0) + tally p xs

-- How many directories a directory has, and none where there is no directory.
abbrev pub subfolders : Bytes → Disk → Option Node → ℕ
subfolders path d none = 0
subfolders path d (some (regular c t)) = 0
subfolders path d (some folder) = tally (λ (e : DirEntry). e.is_dir) (children path d)

-- What a listing tells of a folder: how many folders it has on the disk, and notes and task lists
-- directly in it in the database.
abbrev pub shown_folder : Disk → Tables → Bytes → Bytes → Bytes → FileEntry
shown_folder d t parent_dir parent name = record {
  path = entry_path parent name;
  title = name;
  metadata = folder_metadata (
      as_int32 (
        subfolders (join parent_dir name) d (look d (join parent_dir name))
        + tally (λ n. str_eq n.parent_dir (entry_path parent name)) t.notes
        + tally (λ l. str_eq l.parent_dir (entry_path parent name)) t.task_lists));
}

-- The main tasks of a list.
abbrev pub belongs : Bytes → Option Bytes → Bool
belongs id none = false
belongs id (some list) = str_eq id list

-- What it tells of a task list: how many main tasks it has, and how many of those are done.
abbrev pub shown_list : Bytes → Tables → TaskListColumns → FileEntry
shown_list parent t l = record {
  path = entry_path parent l.title;
  title = l.title;
  metadata =
      task_list_metadata l.id l.updated_at
        (as_int32 (tally (λ (r : TaskColumns). belongs l.id r.task_list_id) t.tasks))
        (as_int32
          (tally (λ (r : TaskColumns). belongs l.id r.task_list_id && r.is_done == 1) t.tasks));
}

-- What it tells of a note.
abbrev pub shown_note : Bytes → NoteRow → FileEntry
shown_note parent n = record {
  path = entry_path parent (n.title ++ (bytes "_" ++ (n.id ++ bytes ".md")));
  title = n.title;
  metadata = note_metadata n.id n.updated_at n.preview;
}

abbrev pub shown_folders : Disk → Tables → Bytes → Bytes → List DirEntry → List FileEntry
shown_folders d t parent_dir parent es =
    map (λ (e : DirEntry). shown_folder d t parent_dir parent e.name)
      (select (λ (e : DirEntry). e.is_dir) es)

-- Folders by name, then the task lists, then the notes.
abbrev pub shown_entries : Disk → Tables → Bytes → Bytes → List FileEntry
shown_entries d t parent_dir parent =
    shown_folders d t parent_dir parent (by_name (children parent_dir d))
    ++ (map (shown_list parent t) (lists_in parent t) ++ map (shown_note parent) (in_dir parent t))

module _ (parent_dir parent : Bytes) where
  abbrev folder_of : World → Bytes → FileEntry
  folder_of w name = shown_folder w.fs.disk w.conn.tables parent_dir parent name
