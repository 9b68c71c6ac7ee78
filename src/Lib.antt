-- ===== src/Lib.antt =====
-- echolist-backend: a server for notes, task lists and folders (Go, Connect RPC, SQLite). This
-- library models the database package, the shared validations, the atomic writes of files, the
-- locks on paths, the services of tasks, notes and files, authentication and the start of the
-- server, and proves what they promise.
--
-- Parts. A request passes the auth interceptor and reaches a service (tasks/, notes/, file/). A
-- service validates its input (common/), works on the data directory and calls package database,
-- which keeps task lists, tasks and note metadata in three SQLite tables.
--
-- - Base: lists, texts (a Go string is the list of its bytes; Base.Substrings says where one
--   occurs) and calls that may fail and change a state (Base.Action).
-- - Database.Types, Conn, Sql: database/types.go, schema.go, database.go. A table is the list of
--   its rows. A connection holds the tables and a list of faults: each statement takes one entry
--   and fails without effect if the entry says so; a transaction undoes its body after any error.
--   The SQL text of the program is translated by what SQLite documents for it: primary and
--   foreign keys, ON DELETE CASCADE, ORDER BY (as a stable sort), LIKE without regard to ASCII
--   case, SUBSTR by characters. Without ORDER BY rows come in the order of insertion; no theorem
--   rests on that order, or on that of rows with equal sort keys.
-- - Database.Notes, Helpers, TaskLists, Folders, Upcoming: one function for each method of
--   Database in database/notes.go, helpers.go, task_lists.go, folders.go and
--   upcoming_main_tasks.go.
-- - Database.Integrity: the invariant of the tables and its preservation.
-- - Common.Errors, Names, Uuid, Filepath, Paths: common/constants.go, uuid.go and pathutil.go,
--   over the functions of path/filepath that they use. What a request sees of the file system
--   (EvalSymlinks, Stat) is a parameter.
-- - Tasks: tasks/*.go. Convert is the translation between messages, rows and tasks; Validate is
--   validate.go; Recurrence is the advancement of recurring tasks and the auto-delete filter,
--   with time.Parse and Format of dates as the standard library has them; Server holds the
--   handlers; Stored follows the tasks of a list into the table and back. The recurrence library,
--   the results of uuid.NewString and the clock are parameters; what they promise is named where
--   a theorem relies on it (CalendarLaws).
-- - Auth: auth/*.go. Tokens is the token service, Interceptor the check of every request, Users
--   the user store with its file, Server the two handlers, Credentials whom a login lets in,
--   Logging the interceptor of common/logging.go around that check. The JWT, bcrypt and JSON
--   libraries are parameters; Auth.Tokens.Lifetime and Auth.Users.Initial state what the program
--   relies on in them. Times are natural numbers of nanoseconds, so that a lifetime below zero is
--   left out.
-- - Common.Disk, Common.AtomicWrite: common/atomicwrite.go over the calls of package os. A disk
--   is a list of paths with files and directories; each call takes one entry of what the calls
--   meet: it works, fails (a Write after some bytes), or the process has stopped, so that no
--   later call has an effect. Base.Triples has the rules for such calls.
-- - Common.PathLock: common/pathlock.go as a step relation of threads, any number of them. A step
--   is a section under the locker's mutex, or the Lock or Unlock of an entry's own. Invariant has
--   what every step keeps, Order the order of LockMany.
-- - Service: what the handlers of notes and file share, a disk and a database. Service.Steps
--   reads off what a handler that succeeded has got from each call.
-- - Notes: notes/*.go. Preview is computePreview with the decoding of UTF-8, Server the handlers.
-- - File: file/*.go. Server holds the handlers; Common.Disk.Folders has the calls of package os
--   on directories. An int32 of a response is its residue modulo 2^32.
-- - Database.Schema: opening a file, in database/schema.go and database.go. The loop of
--   createSchema is recursion over the migrations that are left. PRAGMA user_version is a natural
--   number: for a negative one createSchema panics. That PRAGMA journal_mode has run is all that
--   is_wal says; SQLite may keep the old mode.
-- - Start: main.go. Origins is corsMiddleware, Probes the handler of /healthz. An int64 is its
--   residue modulo 2^64 where Go multiplies it.
-- - Tests: runs on concrete inputs, and the theorems at such inputs.
--
-- Bounds and fuel. Numbers are unbounded; int64 timestamps are only copied. The cascade of a
-- delete runs one round for each row left. The walk of resolveSymlinks up the path has fuel for
-- each byte of the path and two rounds more; Climbs is the same loop without fuel. Printing a
-- year beyond 9999 has fuel for as many digits as the year.
--
-- Not modelled: error texts beyond their kind, what the handlers log themselves, RowsAffected and
-- Scan failing apart from their statement, closing the database, two handlers of notes or file at
-- once (the locks on paths are modelled by themselves), symbolic links and permissions on the
-- disk of these two, and in main.go the wiring, listening, signals and the limit of a body. The
-- text of a file that the disk keeps is what the calls wrote; what a power cut does to text that
-- was not synced is left out.
pub mod Base
pub mod Database
pub mod Common
pub mod Tasks
pub mod Auth
pub mod Service
pub mod Notes
pub mod File
pub mod Start
mod Tests
