-- ===== src/Auth/Users.antt =====
-- auth/user_store.go. The store is used under its lock, one call at a time.
pub mod Initial
use echolist_backend.Base.{
  ℕ, Bool, true, false, Option, none, some, List, [], ◌∷◌, ◌||◌, not, if◌then◌else◌, length, ltb,
  Bytes, bytes, str_eq, find_first,
}
use echolist_backend.Base.Action.{Result, ok, err, Action, pure, fail, ◌>>=◌, ◌>>◌}
use echolist_backend.Common.Filepath.{dir}

pub record User : Type 0 where
  pub username : Bytes
  pub password_hash : Bytes

pub data StoreError : Type 0 where
  malformed_store unreadable_store default_password_required hash_failed marshal_failed : StoreError
  mkdir_failed write_failed credentials_invalid : StoreError

-- golang.org/x/crypto/bcrypt and encoding/json, which are not part of this file: hashing a password
-- (with the salt of this run) and comparing it, writing users and reading them.
pub record Libraries : Type 0 where
  pub generate_from_password : Bytes → Option Bytes
  pub compare_hash_and_password : Bytes → Bytes → Bool
  pub marshal_indent : List User → Option Bytes
  pub unmarshal : Bytes → Option (List User)

-- What os.ReadFile finds at the store's path.
pub data StoreFile : Type 0 where
  absent unreadable : StoreFile
  holds : Bytes → StoreFile

-- The disk: the store's file; does os.MkdirAll succeed; what os.WriteFile leaves if it fails.
pub record Disk : Type 0 where
  pub file : StoreFile
  pub mkdir_succeeds : Bool
  pub write_fault : Option StoreFile

-- The store's users and the disk. The path does not change.
pub record State : Type 0 where
  pub users : List User
  pub disk : Disk

abbrev pub get_user : List User → Bytes → Option User
get_user users username = find_first (λ (u : User). str_eq u.username username) users

abbrev pub has_users : List User → Bool
has_users users = ltb 0 (length users)

abbrev set_users : List User → Action State StoreError (Unit {0})
set_users users s = (ok tt, record s { users = users })

abbrev or_fail : {A : Type 0} → StoreError → Option A → Action State StoreError A
or_fail e none = fail e
or_fail e (some a) = pure a

abbrev mkdir_all : Action State StoreError (Unit {0})
mkdir_all s = (if s.disk.mkdir_succeeds then ok tt else err mkdir_failed, s)

-- The directory of the file is made unless it is the current one.
abbrev make_parent : Bytes → Action State StoreError (Unit {0})
make_parent path =
    if not (str_eq (dir path) [])
    then (if not (str_eq (dir path) (bytes ".")) then mkdir_all else pure tt)
    else pure tt

abbrev write_file : Bytes → Action State StoreError (Unit {0})
write_file data_ s = elim s.disk.write_fault [
  | none ↦ (ok tt, record s { disk = record s.disk { file = holds data_ } })
  | some left ↦ (err write_failed, record s { disk = record s.disk { file = left } })
]

module _ (libs : Libraries) where
  abbrev pub check_password : Bytes → Option User → Result StoreError User
  check_password password none = err credentials_invalid
  check_password password (some user) =
      if libs.compare_hash_and_password user.password_hash password
      then ok user
      else err credentials_invalid

  unfoldable pub authenticate : List User → Bytes → Bytes → Result StoreError User
  authenticate users username password = check_password password (get_user users username)

  abbrev initialize : Bytes → Bytes → Bytes → Action State StoreError (Unit {0})
  initialize file_path default_user default_password = do
    hash ← or_fail hash_failed (libs.generate_from_password default_password)
    let users = record { username = default_user; password_hash = hash } ∷ []
    set_users users
    text ← or_fail marshal_failed (libs.marshal_indent users)
    make_parent file_path
    write_file text

  abbrev load : Bytes → Action State StoreError (Unit {0})
  load text = do users ← or_fail malformed_store (libs.unmarshal text); set_users users

  unfoldable pub load_or_initialize : Bytes → Bytes → Bytes → Action State StoreError (Unit {0})
  unfolding dir
  load_or_initialize file_path default_user default_password s = elim s.disk.file [
    | holds text ↦ load text s
    | unreadable ↦ fail unreadable_store s
    | absent ↦
        if str_eq default_password []
        then fail default_password_required s
        else initialize file_path default_user default_password s
  ]
