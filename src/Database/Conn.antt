-- ===== src/Database/Conn.antt =====
-- The connection of database/database.go: the tables, and the failures that the engine will
-- report. Every statement takes one entry of `faults`: `none` lets it run, `some f` makes it
-- fail and change nothing. Once the list is empty no statement fails of itself.
pub mod Outcome
pub mod Preserves
pub mod Writes
pub mod RollsBack
use echolist_backend.Base.{Option, none, some, List, [], ◌∷◌}
use echolist_backend.Base.Action.{Result, ok, err, Action, pure, ◌>>=◌, ◌>>◌}
use echolist_backend.Database.Types.{Tables}

-- An error of the driver, or of the request's context.
pub data Fault : Type 0 where
  engine canceled deadline_exceeded : Fault

-- ErrNotFound, a violated PRIMARY KEY or foreign key, or an error of the driver.
pub data DbError : Type 0 where
  not_found constraint : DbError
  fault : Fault → DbError

pub record Conn : Type 0 where
  pub tables : Tables
  pub faults : List (Option Fault)

abbrev pub Db {ℓ} : Type ℓ → Type ℓ
Db A = Conn → Result DbError A × Conn

module _ {A : Type 0} where
  abbrev settle :
      Result DbError (A × Tables) → Tables → List (Option Fault) → Result DbError A × Conn
  settle (ok (a, t')) t fs = (ok a, record { tables = t'; faults = fs })
  settle (err e) t fs = (err e, record { tables = t; faults = fs })

  abbrev statement_under :
      (Tables → Result DbError (A × Tables))
      → List (Option Fault)
      → Tables
      → Result DbError A × Conn
  statement_under f [] t = settle (f t) t []
  statement_under f (none ∷ fs) t = settle (f t) t fs
  statement_under f (some x ∷ fs) t = (err (fault x), record { tables = t; faults = fs })

  -- tx.Exec, db.Exec: what the statement does, or an error that changes nothing.
  unfoldable pub exec : (Tables → Result DbError (A × Tables)) → Action Conn DbError A
  exec f c = statement_under f c.faults c.tables

  -- Query, QueryRow and the scan of the rows.
  unfoldable pub query : (Tables → A) → Action Conn DbError A
  unfolding exec
  query f = exec (λ t. ok (f t, t))

module _ {A : Type 0} where
  abbrev finish : Tables → Result DbError A × Conn → Result DbError A × Conn
  finish before (ok a, c) = (ok a, c)
  finish before (err e, c) = (err e, record c { tables = before })

  -- db.Begin, the body, tx.Commit; the deferred tx.Rollback undoes the body after any error.
  unfoldable pub transaction : Action Conn DbError A → Action Conn DbError A
  unfolding exec
  transaction body c =
      finish c.tables ((do exec (λ t. ok (tt, t)); a ← body; exec (λ t. ok (tt, t)); pure a) c)
