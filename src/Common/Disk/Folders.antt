-- ===== src/Common/Disk/Folders.antt =====
-- The calls of Go's package os on directories. The root of the file system is not among them.
pub mod Calls
pub mod Moving
use echolist_backend.Base.{
  ℕ, zero, suc, ◌+◌, ◌==◌, Bool, true, false, ◌&&◌, ◌||◌, not, Option, none, some, List, [], ◌∷◌,
  ◌++◌, select, any, drop, length, if◌then◌else◌, Bytes, bytes, str_eq, str_le,
}
use echolist_backend.Base.Action.{Result, ok, err, Action}
use echolist_backend.Common.Filepath.{dir}
use echolist_backend.Common.Disk.{
  Node, regular, folder, Disk, IoError, exist, no_entry, other, Fs, look, put, below, is_folder,
  system_call, system_call_or,
}

abbrev pub made_in : Bytes → Bool → Option Node → Disk → Result IoError (Unit {0}) × Disk
made_in path parent (some n) d = (err exist, d)
made_in path true none d = (ok tt, put path folder d)
made_in path false none d = (err no_entry, d)

-- os.Mkdir
unfoldable pub mkdir : Bytes → Action Fs IoError (Unit {0})
unfolding system_call look put dir
mkdir path = system_call (λ d. made_in path (is_folder (look d (dir path))) (look d path) d)

-- At a path or below it.
abbrev pub inside : Bytes → Bytes → Bool
inside path p = str_eq p path || below path p

-- The disk without the first `k` of the paths at or below one.
unfoldable pub drop_inside : ℕ → Bytes → Disk → Disk
unfolding below
drop_inside zero path d = d
drop_inside (suc k) path [] = []
drop_inside (suc k) path (e ∷ d) =
    let gone = drop_inside k path d in
    let kept = drop_inside (suc k) path d in if inside path e.0 then gone else e ∷ kept

-- os.RemoveAll, which may end after some of the files.
unfoldable pub remove_all : Bytes → Action Fs IoError (Unit {0})
unfolding system_call_or drop_inside below
remove_all path =
    system_call_or (λ k d. drop_inside k path d)
      (λ d. (ok tt, select (λ e. not (inside path e.0)) d))

-- What os.ReadDir tells of an entry.
pub record DirEntry : Type 0 where
  pub name : Bytes
  pub is_dir : Bool

abbrev pub names_child : Bytes → Bytes → Bool
names_child path p = below path p && not (any (λ c. c == b'/') (drop (length path + 1) p))

unfoldable pub children : Bytes → Disk → List DirEntry
unfolding below
children path [] = []
children path (e ∷ d) =
    let rest = children path d in
    if names_child path e.0
    then record { name = drop (length path + 1) e.0; is_dir = is_folder (some e.1) } ∷ rest
    else rest

unfoldable pub insert_entry : DirEntry → List DirEntry → List DirEntry
unfolding str_le
insert_entry x [] = x ∷ []
insert_entry x (y ∷ ys) =
    let rest = insert_entry x ys in if str_le x.name y.name then x ∷ y ∷ ys else y ∷ rest

unfoldable pub by_name : List DirEntry → List DirEntry
unfolding insert_entry
by_name [] = []
by_name (x ∷ xs) = insert_entry x (by_name xs)

abbrev pub entries_of : Bytes → Option Node → Disk → Result IoError (List DirEntry)
entries_of path none d = err no_entry
entries_of path (some (regular c t)) d = err other
entries_of path (some folder) d = ok (by_name (children path d))

-- os.ReadDir: the entries in the order of their names.
unfoldable pub read_dir : Bytes → Action Fs IoError (List DirEntry)
unfolding system_call look by_name children
read_dir path = system_call (λ d. (entries_of path (look d path) d, d))
