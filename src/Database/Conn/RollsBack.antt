-- ===== src/Database/Conn/RollsBack.antt =====
-- A call of database/database.go that fails and leaves the tables as they were.
use echolist_backend.Base.{◌≡◌, refl, sym, ap, ◌∙◌, arith}
use echolist_backend.Base.Action.{Result, ok, err, Action, pure, proceed, ◌>>=◌}
use echolist_backend.Database.Types.{Tables}
use echolist_backend.Database.Conn.{Conn, DbError, finish, transaction}

pub record RollsBack {A : Type 0} (m : Action Conn DbError A) : Type 0 where
  pub at : (c : Conn) (e : DbError) (c' : Conn) → m c ≡ (err e, c') → c'.tables ≡ c.tables

module _ {A : Type 0} where
  undone :
      (before : Tables) (p : Result DbError A × Conn) (e : DbError) (c' : Conn)
      → finish before p ≡ (err e, c')
      → c'.tables ≡ before
  undone before (ok a, c) e c' h = ground arith
  undone before (err x, c) e c' h = ap (λ q. q.1.tables) (sym h)

  pub transaction-RollsBack : (body : Action Conn DbError A) → RollsBack (transaction body)
  unfolding transaction
  transaction-RollsBack body = record { at = λ c e c' h. undone c.tables _ e c' h }

module _ {A B : Type 0} where
  failed_first :
      (f : A → Action Conn DbError B) (g : A → B) (p : Result DbError A × Conn) (t : Tables)
      (e : DbError) (c' : Conn)
      → ((a : A) → f a ≡ pure (g a))
      → ((x : DbError) (c : Conn) → p ≡ (err x, c) → c.tables ≡ t)
      → proceed f p.0 p.1 ≡ (err e, c')
      → c'.tables ≡ t
  failed_first f g (ok a, c) t e c' succeeds k h =
      let same = ap (λ (m : Action Conn DbError B). m c) (succeeds a) in ground arith
  failed_first f g (err x, c) t e c' succeeds k h = ap (λ q. q.1.tables) (sym h) ∙ k x c refl

  -- Work on the result of the call cannot fail.
  pub RollsBack-then :
      (m : Action Conn DbError A) (f : A → Action Conn DbError B) (g : A → B)
      → RollsBack m
      → ((a : A) → f a ≡ pure (g a))
      → RollsBack (m >>= f)
  RollsBack-then m f g km succeeds = record {
    at = λ c e c' h. failed_first f g (m c) c.tables e c' succeeds (λ x c1 r. km.at c x c1 r) h;
  }
