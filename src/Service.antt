-- ===== src/Service.antt =====
-- What the handlers of package notes and of package file work on: the disk and the database.
pub mod Steps
use echolist_backend.Base.{ℕ, ◌+◌, Bytes}
use echolist_backend.Base.Action.{Result, ok, err, Action, pure, fail, lift, ◌>>=◌}
use echolist_backend.Common.Errors.{Message, ConnectError, new_error, not_found, internal}
use echolist_backend.Common.Names.{require_dir}
use echolist_backend.Common.Paths.{Os, validate_path, validate_parent_dir}
use echolist_backend.Common.Disk.{Disk, Fs, Io, IoError, exist, no_entry, other}
use echolist_backend.Database.Conn.{Conn, DbError}

-- The disk, the database, and how many calls of uuid.NewString there have been.
pub record World : Type 0 where
  pub fs : Fs
  pub conn : Conn
  pub issued : ℕ

abbrev pub Handler : Type 0 → Type 0
Handler A = Action World ConnectError A

module _ {A : Type 0} where
  -- A call of the database or of the file system, whose error the handler inspects.
  abbrev pub on_db : Action Conn DbError A → Handler (Result DbError A)
  on_db m w = let (r, c) = m w.conn in (ok r, record w { conn = c })

  abbrev pub on_fs : Io A → Handler (Result IoError A)
  on_fs m w = let (r, s) = m w.fs in (ok r, record w { fs = s })

  -- NotFound for os.ErrNotExist, Internal for any other error of the file system.
  abbrev pub there_or : Message → Message → Result IoError A → Handler A
  there_or absent failed (ok a) = pure a
  there_or absent failed (err no_entry) = fail (new_error not_found absent)
  there_or absent failed (err exist) = fail (new_error internal failed)
  there_or absent failed (err other) = fail (new_error internal failed)

  abbrev pub done_or : Message → Result IoError A → Handler A
  done_or failed (ok a) = pure a
  done_or failed (err e) = fail (new_error internal failed)

-- common.RequireDir and common.ValidateParentDir on the disk as it is; `os` is what the disk shows
-- to EvalSymlinks and Stat.
unfoldable pub required_dir : (Disk → Os) → Bytes → Handler (Unit {0})
unfolding require_dir
required_dir os path w = lift (require_dir ((os w.fs.disk).stat path)) w

unfoldable pub valid_parent_dir : (Disk → Os) → Bytes → Bytes → Handler Bytes
unfolding validate_parent_dir
valid_parent_dir os data_dir dir w = lift (validate_parent_dir (os w.fs.disk) data_dir dir) w

-- common.ValidatePath
unfoldable pub valid_path : (Disk → Os) → Bytes → Bytes → Handler Bytes
unfolding validate_path
valid_path os data_dir path w = lift (validate_path (os w.fs.disk) data_dir path) w
