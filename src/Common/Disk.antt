-- ===== src/Common/Disk.antt =====
-- The files below the data directory, and the calls of Go's package os on them, on Unix. Links
-- and permissions are left out. A path is the text the program gives; every path of the program
-- comes from filepath.Join, so that one file has one text.
-- A path below a regular file counts as one that is not there.
pub mod Map
pub mod Calls
pub mod Folders
use echolist_backend.Base.{
  ℕ, Bool, true, false, ◌||◌, ◌&&◌, not, Option, none, some, List, [], ◌∷◌, ◌++◌, map, select, any,
  take, drop, length, if◌then◌else◌, Bytes, bytes, str_eq, has_prefix,
}
use echolist_backend.Base.Action.{Result, ok, err, Action, pure, fail}
use echolist_backend.Common.Filepath.{dir, join}

-- A file with its content and the time of its last change in milliseconds, or a directory.
pub data Node : Type 0 where
  regular : Bytes → ℕ → Node
  folder : Node

abbrev pub Disk : Type 0
Disk = List (Bytes × Node)

unfoldable pub look : Disk → Bytes → Option Node
look [] p = none
look (e ∷ d) p = let rest = look d p in if str_eq e.0 p then some e.1 else rest

unfoldable pub drop_at : Bytes → Disk → Disk
drop_at p d = select (λ e. not (str_eq e.0 p)) d

unfoldable pub put : Bytes → Node → Disk → Disk
unfolding drop_at
put p n d = (p, n) ∷ drop_at p d

abbrev pub is_folder : Option Node → Bool
is_folder none = false
is_folder (some (regular c t)) = false
is_folder (some folder) = true

-- Is the path below a directory?
unfoldable pub below : Bytes → Bytes → Bool
below d p = has_prefix (d ++ bytes "/") p

-- os.ErrExist, os.ErrNotExist, or another error.
pub data IoError : Type 0 where
  exist no_entry other : IoError

-- What the next call meets: it works, it fails (after so many bytes, if it is a Write), or the
-- process has stopped, so that neither this call nor a later one has an effect.
pub data Meets : Type 0 where
  works stops : Meets
  fails : ℕ → Meets

-- The disk, what the coming calls meet (they work once the list is empty), the random parts that
-- os.CreateTemp will draw, and the time.
pub record Fs : Type 0 where
  pub disk : Disk
  pub meets : List Meets
  pub random : List Bytes
  pub now : ℕ

abbrev pub Io : Type 0 → Type 0
Io A = Action Fs IoError A

module _ {A : Type 0} where
  abbrev settled : Result IoError A × Disk → Fs → Result IoError A × Fs
  settled (r, d) fs = (r, record fs { disk = d })

  abbrev meeting :
      (Disk → Result IoError A × Disk) → (ℕ → Disk → Disk) → List Meets → Fs → Result IoError A × Fs
  meeting f partial [] fs = settled (f fs.disk) fs
  meeting f partial (works ∷ ms) fs = settled (f fs.disk) (record fs { meets = ms })
  meeting f partial (fails k ∷ ms) fs =
      (err other, record fs { disk = partial k fs.disk; meets = ms })
  meeting f partial (stops ∷ ms) fs = (err other, fs)

  -- A system call that does `f`, or fails after `partial`.
  unfoldable pub system_call_or :
      (ℕ → Disk → Disk) → (Disk → Result IoError A × Disk) → Action Fs IoError A
  system_call_or partial f fs = meeting f partial fs.meets fs

  unfoldable pub system_call : (Disk → Result IoError A × Disk) → Action Fs IoError A
  unfolding system_call_or
  system_call f = system_call_or (λ k d. d) f

abbrev created_in : Bytes → ℕ → Bool → Option Node → Disk → Result IoError (Unit {0}) × Disk
created_in path time parent (some n) d = (err exist, d)
created_in path time true none d = (ok tt, put path (regular [] time) d)
created_in path time false none d = (err no_entry, d)

-- os.OpenFile with O_CREATE and O_EXCL: a new empty file.
unfoldable pub open_exclusive : Bytes → Action Fs IoError (Unit {0})
unfolding system_call look put dir
open_exclusive path fs =
    system_call (λ d. created_in path fs.now (is_folder (look d (dir path))) (look d path) d) fs

-- The first name that is not taken, and the random parts left; os.CreateTemp gives up at the end.
unfoldable pub free_name : Disk → Bytes → Bytes → List Bytes → Option Bytes × List Bytes
unfolding look join
free_name d parent prefix [] = (none, [])
free_name d parent prefix (r ∷ rs) =
    let name = join parent (prefix ++ r) in
    let later = free_name d parent prefix rs in
    elim (look d name) [ none ↦ (some name, rs) | some n ↦ later ]

abbrev opened : Bytes → Option Bytes → ℕ → Bool → Disk → Result IoError Bytes × Disk
opened parent none time there d = (err exist, d)
opened parent (some name) time true d = (ok name, put name (regular [] time) d)
opened parent (some name) time false d = (err no_entry, d)

-- os.CreateTemp of a pattern that ends in its star; it returns the file's name.
unfoldable pub create_temp : Bytes → Bytes → Action Fs IoError Bytes
unfolding system_call look put free_name
create_temp parent prefix fs =
    let (name, rest) = free_name fs.disk parent prefix fs.random in
    system_call (λ d. opened parent name fs.now (is_folder (look d parent)) d)
      (record fs { random = rest })

-- Write to the file that was opened under the name; it may end early.
unfoldable pub write_file : Bytes → Bytes → Action Fs IoError (Unit {0})
unfolding system_call_or put
write_file path content fs =
    system_call_or (λ k d. put path (regular (take k content) fs.now) d)
      (λ d. (ok tt, put path (regular content fs.now) d)) fs

-- Sync and Close change no content.
unfoldable pub flush : Action Fs IoError (Unit {0})
unfolding system_call
flush = system_call (λ d. (ok tt, d))

abbrev pub has_children : Bytes → Disk → Bool
has_children p d = any (λ e. below p e.0) d

abbrev removed : Bytes → Option Node → Disk → Result IoError (Unit {0}) × Disk
removed path none d = (err no_entry, d)
removed path (some (regular c t)) d = (ok tt, drop_at path d)
removed path (some folder) d =
    if has_children path d then (err other, d) else (ok tt, drop_at path d)

-- os.Remove, of a file or an empty directory.
unfoldable pub remove : Bytes → Action Fs IoError (Unit {0})
unfolding system_call look drop_at below
remove path = system_call (λ d. removed path (look d path) d)

-- The path of what was at or below a directory that has moved.
abbrev pub moved_path : Bytes → Bytes → Bytes → Bytes
moved_path old new p =
    if str_eq p old then new else if below old p then new ++ drop (length old) p else p

abbrev pub move_all : Bytes → Bytes → Disk → Disk
move_all old new d = map (λ e. (moved_path old new e.0, e.1)) d

abbrev renamed :
    Bytes → Bytes → Option Node → Option Node → Bool → Disk → Result IoError (Unit {0}) × Disk
renamed old new none target parent d = (err no_entry, d)
renamed old new (some n) (some folder) parent d = (err exist, d)
renamed old new (some n) none false d = (err no_entry, d)
renamed old new (some (regular c t)) none true d = (ok tt, put new (regular c t) (drop_at old d))
renamed old new (some (regular c t)) (some (regular c' t')) parent d =
    (ok tt, put new (regular c t) (drop_at old d))
renamed old new (some folder) (some (regular c t)) parent d = (err other, d)
renamed old new (some folder) none true d =
    if below old new then (err other, d) else (ok tt, move_all old new d)

-- os.Rename: a file replaces a file; nothing replaces a directory.
unfoldable pub rename : Bytes → Bytes → Action Fs IoError (Unit {0})
unfolding system_call look put drop_at below dir
rename old new =
    system_call (λ d. renamed old new (look d old) (look d new) (is_folder (look d (dir new))) d)

abbrev pub stat_of : Option Node → Result IoError Node
stat_of none = err no_entry
stat_of (some n) = ok n

-- os.Stat
unfoldable pub stat : Bytes → Action Fs IoError Node
unfolding system_call look
stat path = system_call (λ d. (stat_of (look d path), d))

abbrev pub content_of : Option Node → Result IoError Bytes
content_of none = err no_entry
content_of (some folder) = err other
content_of (some (regular c t)) = ok c

-- os.ReadFile
unfoldable pub read_file : Bytes → Action Fs IoError Bytes
unfolding system_call look
read_file path = system_call (λ d. (content_of (look d path), d))
