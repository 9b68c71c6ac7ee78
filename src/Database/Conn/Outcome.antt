-- ===== src/Database/Conn/Outcome.antt =====
-- What a call on the connection of database/database.go may have done.
use echolist_backend.Base.{Bool, true, false, Option, none, some, List, [], ◌∷◌, ◌≡◌}
use echolist_backend.Base.Action.{Result, ok, err}
use echolist_backend.Database.Types.{Tables}
use echolist_backend.Database.Conn.{Fault, Conn, DbError}

-- Success with the tables related to those before, or an error that changed no table.
abbrev pub AllOrNothing :
    {A : Type 0} → (A → Tables → Type 0) → Tables → Result DbError A × Conn → Type 0
AllOrNothing P before (ok a, c) = P a c.tables
AllOrNothing P before (err e, c) = c.tables ≡ before

abbrev pub will_fail : List (Option Fault) → Bool
will_fail [] = false
will_fail (none ∷ fs) = will_fail fs
will_fail (some f ∷ fs) = true

-- The same, and an error only if some statement fails of itself.
abbrev pub OnlyFaults :
    {A : Type 0} → (A → Tables → Type 0) → Conn → Result DbError A × Conn → Type 0
OnlyFaults P before (ok a, c) = P a c.tables
OnlyFaults P before (err e, c) = (c.tables ≡ before.tables) × (will_fail before.faults ≡ true)

pub OnlyFaults-map :
    {A : Type 0} {P Q : A → Tables → Type 0} (before : Conn) (r : Result DbError A × Conn)
    → ((a : A) (t : Tables) → P a t → Q a t)
    → OnlyFaults P before r
    → OnlyFaults Q before r
OnlyFaults-map before (ok a, c) k h = k a c.tables h
OnlyFaults-map before (err e, c) k h = h
