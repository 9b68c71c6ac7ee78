-- ===== src/Database/Schema.antt =====
-- Opening the database: database/schema.go, and New and HealthCheck of database/database.go.
pub mod Versions
use echolist_backend.Base.{
  ℕ, zero, suc, ◌+◌, Bool, true, false, Option, none, some, List, [], ◌∷◌, drop,
}
use echolist_backend.Base.Action.{Result, ok, err, Action, pure, ◌>>=◌, ◌>>◌}
use echolist_backend.Database.Types.{Tables}
use echolist_backend.Database.Conn.{Conn, DbError, fault, Fault, exec}

-- The tables of a database file, if they have been created.
abbrev pub Schema : Type 0
Schema = Option Tables

-- A database file with its `PRAGMA user_version`, which is taken not to be negative, which PRAGMA
-- statements of New have run, and the statements that will fail, as in Conn.
pub record Opening : Type 0 where
  pub schema : Schema
  pub user_version : ℕ
  pub is_wal : Bool
  pub foreign_keys : Bool
  pub faults : List (Option Fault)

abbrev pub Open : Type 0 → Type 0
Open A = Action Opening DbError A

module _ {A : Type 0} where
  abbrev pub running :
      (Opening → A × Opening) → List (Option Fault) → Opening → Result DbError A × Opening
  running f [] s = let (a, s') = f s in (ok a, s')
  running f (none ∷ fs) s = let (a, s') = f (record s { faults = fs }) in (ok a, s')
  running f (some x ∷ fs) s = (err (fault x), record s { faults = fs })

  -- A statement, which changes nothing if it fails.
  unfoldable pub statement : (Opening → A × Opening) → Open A
  statement f s = running f s.faults s

-- CREATE TABLE IF NOT EXISTS, of the three tables at once.
abbrev pub create_tables : Schema → Schema
create_tables none = some (record { task_lists = []; tasks = []; notes = [] })
create_tables (some t) = some t

-- The entry at index N-1 leads from version N-1 to version N.
abbrev pub migrations : List (Schema → Schema)
migrations = create_tables ∷ []

-- getSchemaVersion
unfoldable pub get_schema_version : Open ℕ
unfolding statement
get_schema_version = statement (λ s. (s.user_version, s))

abbrev pub rolled_back :
    Opening → Result DbError (Unit {0}) × Opening → Result DbError (Unit {0}) × Opening
rolled_back before (ok u, s) = (ok tt, s)
rolled_back before (err e, s) = (err e, record before { faults = s.faults })

-- A round of the loop of createSchema: Begin, the migration, its version, Commit.
unfoldable pub apply_migration : ℕ → (Schema → Schema) → Open (Unit {0})
unfolding statement
apply_migration version m s = rolled_back s (
    (do
      statement (λ x. (tt, x))
      statement (λ x. (tt, record x { schema = m x.schema }))
      statement (λ x. (tt, record x { user_version = version }))
      statement (λ x. (tt, x)))
      s)

-- The loop, from a version on over the migrations that are left.
unfoldable pub apply_from : ℕ → List (Schema → Schema) → Open (Unit {0})
unfolding apply_migration
apply_from version [] = pure tt
apply_from version (m ∷ ms) = do apply_migration (version + 1) m; apply_from (version + 1) ms

unfoldable pub create_schema : List (Schema → Schema) → Open (Unit {0})
unfolding get_schema_version apply_from
create_schema ms = do version ← get_schema_version; apply_from version (drop version ms)

-- New, on a file that could be opened.
unfoldable pub new_database : Open (Unit {0})
unfolding statement create_schema
new_database = do
  statement (λ s. (tt, record s { is_wal = true }))
  statement (λ s. (tt, record s { foreign_keys = true }))
  create_schema migrations

-- HealthCheck, on the open database
unfoldable pub health_check : Action Conn DbError (Unit {0})
unfolding exec
health_check = exec (λ t. ok (tt, t))
