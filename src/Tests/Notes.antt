-- ===== src/Tests/Notes.antt =====
-- Runs of the handlers of package notes and of the atomic writes, and their theorems at such runs.
use mathlib.Core.Bool.{xor}
use echolist_backend.Base.{
  Option, none, some, List, All, [], ◌∷◌, ◌++◌, if◌then◌else◌, Bytes, bytes, ◌≡◌, ◌≤◌, refl, str_eq,
  contains, length, drop,
}
use echolist_backend.Base.Action.{ok, err}
use echolist_backend.Base.Triples.{Ends}
use echolist_backend.Common.Errors.{new_error, not_found, note_not_found}
use echolist_backend.Common.Uuid.{validate_uuid_v4}
use echolist_backend.Common.Names.{missing, file, directory, Stat, require_dir}
use echolist_backend.Common.Paths.{Os, Resolved, found, not_exist, validate_parent_dir}
use echolist_backend.Common.Disk.{Node, regular, folder, Disk, Fs, works, fails, look, other}
use echolist_backend.Common.AtomicWrite.{write_atomically, create_exclusive}
use echolist_backend.Common.AtomicWrite.Promise.{
  WholeOrNone, write_atomically_lem, create_exclusive_lem,
}
use echolist_backend.Database.Integrity.Runs.{empty_tables}
use echolist_backend.Database.Types.{NoteRow}
use echolist_backend.Database.Notes.Laws.{note_at}
use echolist_backend.Service.{World}
use echolist_backend.Notes.Preview.{compute_preview, runes, text_of}
use echolist_backend.Notes.Preview.Bounds.{compute_preview_lem}
use echolist_backend.Notes.Server.{
  CreateNoteRequest, UpdateNoteRequest, PbNote, create_note, update_note, delete_note, get_note,
  list_notes, row_path,
}
use echolist_backend.Notes.Server.Listing.{Listed, IsGot, list_notes-Listed}
use echolist_backend.Database.Integrity.{IsIntegral}
use echolist_backend.Notes.Server.Reading.{quiet_world, NoFolders, in_dir}
use echolist_backend.Notes.Server.Creating.{create_note-then_get_note}
use echolist_backend.Notes.Server.Deleting.{Deleted, delete_note-then_get_note}
use echolist_backend.Notes.Server.Updating.{update_note-then_get_note}
use echolist_backend.Tests.Lists.{numbered, numbered-valid, data_dir}

abbrev real_path : Bytes → Option Node → Resolved
real_path p none = not_exist
real_path p (some n) = found p

abbrev kind_of : Option Node → Stat
kind_of none = missing
kind_of (some (regular c t)) = file
kind_of (some folder) = directory

-- A disk without links.
abbrev pub plain : Disk → Os
plain d = record { eval_symlinks = λ p. real_path p (look d p); stat = λ p. kind_of (look d p) }

-- The data directory with one folder.
abbrev pub world : World
world = record {
  fs = record {
    disk = (data_dir, folder) ∷ (bytes "/data/work", folder) ∷ [];
    meets = [];
    random = bytes "1" ∷ bytes "2" ∷ [];
    now = 5000;
  };
  conn = record { tables = empty_tables; faults = [] };
  issued = 0;
}

abbrev request : CreateNoteRequest
request = record { title = bytes "Ideas"; content = bytes "first"; parent_dir = bytes "work" }

abbrev note : PbNote
note = record {
  id = numbered 0;
  title = bytes "Ideas";
  content = bytes "first";
  updated_at = 5000;
  parent_dir = bytes "work";
}

abbrev pub created : World
created = (create_note plain numbered data_dir request world).1

creates : create_note plain numbered data_dir request world ≡ (ok note, created)
unfolding create_note str_eq contains xor
creates = refl

create_note-then_get_note_example :
    (get_note data_dir note.id (quiet_world created) ≡ (ok note, quiet_world created))
    × (note.title ≡ request.title)
    × (note.content ≡ request.content)
    × (note.parent_dir ≡ request.parent_dir)
create_note-then_get_note_example =
    create_note-then_get_note plain numbered data_dir request world created note numbered-valid
      creates

-- The row that CreateNote has inserted.
abbrev row : NoteRow
row = record {
  id = numbered 0;
  title = bytes "Ideas";
  parent_dir = bytes "work";
  preview = bytes "first";
  created_at = 5000;
  updated_at = 5000;
}

is_work :
    validate_parent_dir (plain created.fs.disk) data_dir (bytes "work") ≡ ok (bytes "/data/work")
unfolding validate_parent_dir create_note str_eq contains xor
is_work = refl

work_there : require_dir ((plain created.fs.disk).stat (bytes "/data/work")) ≡ ok tt
unfolding require_dir create_note str_eq contains xor
work_there = refl

no_folders : NoFolders data_dir created.fs.disk (in_dir (bytes "work") created.conn.tables)
unfolding create_note row_path str_eq contains xor
no_folders = (refl, tt)

created-IsIntegral : IsIntegral created.conn.tables
unfolding create_note str_eq contains xor
created-IsIntegral = record {
  lists_present = tt;
  parents_present = tt;
  owners = tt;
  list_keys = tt;
  task_keys = tt;
  note_keys = (refl, tt);
}

ids_valid :
    All
      (λ (row : NoteRow). validate_uuid_v4 row.id ≡ ok tt)
      (in_dir (bytes "work") created.conn.tables)
unfolding create_note str_eq contains xor
ids_valid = (numbered-valid 0, tt)

list_notes-Listed_example :
    (notes : List PbNote) × (list_notes plain numbered data_dir (bytes "work") (quiet_world created)
      ≡ (ok notes, quiet_world created))
    × Listed data_dir created.fs.disk (in_dir (bytes "work") created.conn.tables) notes
    × All (IsGot data_dir created) notes
list_notes-Listed_example =
    list_notes-Listed plain numbered data_dir (bytes "work") (bytes "/data/work") created is_work
      work_there no_folders ids_valid created-IsIntegral

-- A new title: the file is renamed.
abbrev change : UpdateNoteRequest
change = record { id = numbered 0; title = bytes "Plans"; content = bytes "second" }

abbrev changed_note : PbNote
changed_note = record {
  id = numbered 0;
  title = bytes "Plans";
  content = bytes "second";
  updated_at = 5000;
  parent_dir = bytes "work";
}

abbrev changed : World
changed = (update_note data_dir change created).1

changes : update_note data_dir change created ≡ (ok changed_note, changed)
unfolding update_note create_note str_eq contains xor
changes = refl

row_there : note_at (numbered 0) created.conn.tables ≡ some row
unfolding create_note str_eq contains xor
row_there = refl

file_there : look created.fs.disk (row_path data_dir row) ≡ some (regular (bytes "first") 5000)
unfolding create_note row_path look str_eq contains xor
file_there = refl

update_note-then_get_note_example :
    (get_note data_dir change.id (quiet_world changed) ≡ (ok changed_note, quiet_world changed))
    × (changed_note.title ≡ change.title)
    × (changed_note.content ≡ change.content)
    × (changed_note.parent_dir ≡ row.parent_dir)
update_note-then_get_note_example =
    update_note-then_get_note data_dir change row (bytes "first") 5000 created changed changed_note
      (numbered-valid 0) row_there file_there changes

abbrev deleted : World
deleted = (delete_note data_dir (numbered 0) created).1

deletes : delete_note data_dir (numbered 0) created ≡ (ok tt, deleted)
unfolding delete_note create_note str_eq contains xor
deletes = refl

delete_note-then_get_note_example :
    Deleted data_dir (numbered 0) (numbered 1) created deleted
    × (get_note data_dir (numbered 0) (quiet_world deleted)
        ≡ (err (new_error not_found note_not_found), quiet_world deleted))
delete_note-then_get_note_example =
    delete_note-then_get_note data_dir (numbered 0) (numbered 1) created deleted (numbered-valid 0)
      deletes

-- A file, and a disk on which the write ends after two bytes.
abbrev short : Fs
short = record {
  disk = (bytes "/data", folder) ∷ (bytes "/data/a", regular (bytes "old") 1) ∷ [];
  meets = works ∷ fails 2 ∷ [];
  random = bytes "1" ∷ [];
  now = 9;
}

a_there : look short.disk (bytes "/data/a") ≡ some (regular (bytes "old") 1)
unfolding look str_eq
a_there = refl

write_atomically_lem_example :
    Ends
      (λ _ s'. look s'.disk (bytes "/data/a") ≡ (
        if str_eq (bytes "/data/a") (bytes "/data/a")
        then some (regular (bytes "new") 9)
        else some (regular (bytes "old") 1)))
      (λ _ s'. look s'.disk (bytes "/data/a") ≡ some (regular (bytes "old") 1))
      (write_atomically (bytes "/data/a") (bytes "new") short)
write_atomically_lem_example =
    write_atomically_lem (bytes "/data/a") (bytes "new") (bytes "old") (bytes "/data/a") 1
      (regular (bytes "old") 1) short a_there a_there

data_there : look short.disk (bytes "/data") ≡ some folder
unfolding look str_eq
data_there = refl

create_exclusive_lem_example :
    WholeOrNone
      (bytes "/data/b")
      (bytes "new")
      short
      (create_exclusive (bytes "/data/b") (bytes "new") short)
    × (look (create_exclusive (bytes "/data/b") (bytes "new") short).1.disk (bytes "/data")
        ≡ some folder)
create_exclusive_lem_example =
    create_exclusive_lem (bytes "/data/b") (bytes "new") (bytes "/data") folder short data_there

-- os.Rename fails: CreateExclusive leaves its empty file, so that a second attempt finds it there.
abbrev no_rename : Fs
no_rename = record short { meets = works ∷ works ∷ works ∷ works ∷ works ∷ works ∷ fails 0 ∷ [] }

sentinel_stays :
    (look (create_exclusive (bytes "/data/b") (bytes "new") no_rename).1.disk (bytes "/data/b")
      ≡ some (regular [] 9))
    × ((create_exclusive (bytes "/data/b") (bytes "new") no_rename).0 ≡ err other)
unfolding create_exclusive look str_eq
sentinel_stays = (refl, refl)

short_text_valid : text_of (runes (bytes "a short text")) ≡ bytes "a short text"
unfolding text_of runes
short_text_valid = refl

compute_preview_lem_example :
    (length (compute_preview (bytes "a short text")) ≤ 400)
    × (compute_preview (bytes "a short text") ++ text_of (drop 100 (runes (bytes "a short text")))
        ≡ bytes "a short text")
compute_preview_lem_example = compute_preview_lem (bytes "a short text") short_text_valid

-- Runes of one to four bytes, and a byte that starts none.
runes_example :
    runes (65 ∷ 195 ∷ 164 ∷ 226 ∷ 130 ∷ 172 ∷ 240 ∷ 159 ∷ 152 ∷ 128 ∷ 255 ∷ [])
    ≡ (65 ∷ [])
      ∷ (195 ∷ 164 ∷ [])
      ∷ (226 ∷ 130 ∷ 172 ∷ [])
      ∷ (240 ∷ 159 ∷ 152 ∷ 128 ∷ [])
      ∷ (239 ∷ 191 ∷ 189 ∷ [])
      ∷ []
unfolding runes
runes_example = refl
