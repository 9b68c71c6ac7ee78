-- ===== src/Tests/Folders.antt =====
-- Runs of the handlers of package file, and their theorems at such runs.
use mathlib.Core.Bool.{xor}
use echolist_backend.Base.{
  none, some, if◌then◌else◌, Bytes, bytes, str_eq, contains, ◌≡◌, refl, false, ◌++◌, arith,
  has_prefix, ◌⊎◌,
}
use echolist_backend.Base.Action.{ok, err}
use echolist_backend.Common.Errors.{new_error, already_exists, folder_exists}
use echolist_backend.Common.Filepath.{join, dir}
use echolist_backend.Common.Paths.{validate_path, validate_parent_dir}
use echolist_backend.Common.Disk.{folder, look, below, moved_path}
use echolist_backend.Common.Disk.Folders.{inside}
use echolist_backend.Common.Disk.Folders.Moving.{IsFree}
use echolist_backend.Database.Folders.Effects.{within, Emptied, IsAscii, Moved, relocated}
use echolist_backend.Database.Folders.Prefix.{starts_with_fold}
use echolist_backend.Service.{World}
use echolist_backend.File.Server.{Folder, new_rel_path, create_folder, delete_folder, update_folder}
use echolist_backend.File.Server.Updating.{update_folder_disk, update_folder_rows}
use echolist_backend.File.Server.Creating.{create_folder_exact}
use echolist_backend.File.Server.Deleting.{delete_folder_exact}
use echolist_backend.Notes.Server.{create_note}
use echolist_backend.Tests.Lists.{data_dir}
use echolist_backend.Tests.Notes.{plain, created}

-- A folder beside the note of the other runs.
abbrev drafts : Folder
drafts = record { path = bytes "work/drafts/"; name = bytes "drafts" }

abbrev with_drafts : World
with_drafts = (create_folder plain data_dir (bytes "work") (bytes "drafts") created).1

makes :
    create_folder plain data_dir (bytes "work") (bytes "drafts") created ≡ (ok drafts, with_drafts)
unfolding create_folder create_note str_eq contains xor
makes = refl

create_folder_exact_example :
    (parent_dir : Bytes) × (validate_parent_dir (plain created.fs.disk) data_dir (bytes "work")
      ≡ ok parent_dir)
    × (look created.fs.disk (join parent_dir (bytes "drafts")) ≡ none)
    × (look with_drafts.fs.disk (bytes "/data/work/drafts") ≡ (
        if str_eq (join parent_dir (bytes "drafts")) (bytes "/data/work/drafts")
        then some folder
        else look created.fs.disk (bytes "/data/work/drafts")))
    × (with_drafts.conn ≡ created.conn)
create_folder_exact_example =
    create_folder_exact plain data_dir (bytes "work") (bytes "drafts") (bytes "/data/work/drafts")
      created with_drafts drafts makes

-- The same name again
makes_once :
    (create_folder plain data_dir (bytes "work") (bytes "drafts") with_drafts).0
    ≡ err (new_error already_exists folder_exists)
unfolding create_folder create_note str_eq contains xor
makes_once = refl

abbrev emptied : World
emptied = (delete_folder plain data_dir (bytes "work") with_drafts).1

deletes : delete_folder plain data_dir (bytes "work") with_drafts ≡ (ok tt, emptied)
unfolding delete_folder create_folder create_note str_eq contains xor
deletes = refl

delete_folder_exact_example :
    (target : Bytes) × (validate_path (plain with_drafts.fs.disk) data_dir (bytes "work")
      ≡ ok target)
    × (look emptied.fs.disk (bytes "/data/work/drafts") ≡ (
        if inside target (bytes "/data/work/drafts")
        then none
        else look with_drafts.fs.disk (bytes "/data/work/drafts")))
    × Emptied (within (bytes "work")) with_drafts.conn.tables emptied.conn.tables
delete_folder_exact_example =
    delete_folder_exact plain data_dir (bytes "work") (bytes "/data/work/drafts") with_drafts
      emptied deletes

work_folder : look with_drafts.fs.disk (bytes "/data/work") ≡ some folder
unfolding look create_folder create_note str_eq contains xor
work_folder = refl

abbrev jobs : Folder
jobs = record { path = bytes "jobs/"; name = bytes "jobs" }

abbrev renamed : World
renamed = (update_folder plain data_dir (bytes "work") (bytes "jobs") with_drafts).1

renames :
    update_folder plain data_dir (bytes "work") (bytes "jobs") with_drafts ≡ (ok jobs, renamed)
unfolding update_folder create_folder create_note str_eq contains xor has_prefix
renames = refl

work_valid :
    validate_path (plain with_drafts.fs.disk) data_dir (bytes "work") ≡ ok (bytes "/data/work")
unfolding validate_path create_folder create_note str_eq contains xor
work_valid = refl

jobs-IsFree : IsFree (join (dir (bytes "/data/work")) (bytes "jobs")) with_drafts.fs.disk
unfolding join dir below create_folder create_note str_eq contains xor has_prefix
jobs-IsFree = (refl, (refl, (refl, (refl, tt))))

note_elsewhere :
    inside (join (dir (bytes "/data/work")) (bytes "jobs")) (bytes "/data/work/drafts") ≡ false
unfolding join dir below str_eq has_prefix
note_elsewhere = refl

work-IsAscii : IsAscii (bytes "work")
work-IsAscii = (omega arith, (omega arith, (omega arith, (omega arith, tt))))

jobs_outside :
    starts_with_fold (bytes "work" ++ bytes "/") (new_rel_path (bytes "work") (bytes "jobs"))
    ≡ false
unfolding new_rel_path str_eq
jobs_outside = refl

update_folder_disk_example :
    (look renamed.fs.disk (
        moved_path
          (bytes "/data/work")
          (join (dir (bytes "/data/work")) (bytes "jobs"))
          (bytes "/data/work/drafts"))
      ≡ look with_drafts.fs.disk (bytes "/data/work/drafts"))
    × ((inside (bytes "/data/work") (bytes "/data/work/drafts") ≡ false)
        ⊎ (look renamed.fs.disk (bytes "/data/work/drafts") ≡ none))
update_folder_disk_example =
    update_folder_disk plain data_dir (bytes "work") (bytes "jobs") (bytes "/data/work")
      (bytes "/data/work/drafts") with_drafts renamed jobs work_valid work_folder jobs-IsFree
      note_elsewhere renames

update_folder_rows_example :
    Moved
      (relocated (bytes "work") (new_rel_path (bytes "work") (bytes "jobs")))
      with_drafts.conn.tables
      renamed.conn.tables
update_folder_rows_example =
    update_folder_rows plain data_dir (bytes "work") (bytes "jobs") with_drafts renamed jobs
      work-IsAscii jobs_outside renames
