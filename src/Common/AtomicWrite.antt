-- ===== src/Common/AtomicWrite.antt =====
-- common/atomicwrite.go
pub mod Outcome
pub mod Promise
use echolist_backend.Base.{Bytes, bytes}
use echolist_backend.Base.Action.{
  Result, ok, err, Action, pure, ◌>>=◌, ◌>>◌, on_error, ensuring, ignoring,
}
use echolist_backend.Common.Filepath.{dir}
use echolist_backend.Common.Disk.{
  Fs, IoError, create_temp, write_file, flush, rename, remove, open_exclusive,
}

-- What runs once the temporary file is there: Write, Sync, Close, os.Rename.
unfoldable pub fill_and_rename :
    Bytes → Bytes → Action Fs IoError (Unit {0}) → Bytes → Action Fs IoError (Unit {0})
unfolding write_file flush rename
fill_and_rename path content cleanup tmp = do
  on_error (write_file tmp content) (ignoring flush >> cleanup)
  on_error flush (ignoring flush >> cleanup)
  on_error flush cleanup
  rename tmp path

unfoldable pub atomic_write :
    Bytes → Bytes → Action Fs IoError (Unit {0}) → Action Fs IoError (Unit {0})
unfolding dir create_temp fill_and_rename remove
atomic_write path content cleanup = do
  tmp ← on_error (create_temp (dir path) (bytes ".tmp-")) cleanup
  ensuring (fill_and_rename path content cleanup tmp) (remove tmp)

-- File: the cleanup is nil.
unfoldable pub write_atomically : Bytes → Bytes → Action Fs IoError (Unit {0})
unfolding atomic_write
write_atomically path content = atomic_write path content (pure tt)

-- CreateExclusive
unfoldable pub create_exclusive : Bytes → Bytes → Action Fs IoError (Unit {0})
unfolding open_exclusive flush atomic_write remove
create_exclusive path content = do
  open_exclusive path
  ignoring flush
  atomic_write path content (remove path)
