-- ===== src/Database/Conn/Preserves.antt =====
-- Invariants of the tables under the calls of database/database.go: one rule for each way to
-- build a call.
use echolist_backend.Base.{
  Bool, true, false, Option, none, some, List, [], ◌∷◌, ◌≡◌, refl, arith, if◌then◌else◌,
}
use echolist_backend.Base.Action.{Result, ok, err, Action, pure, fail, proceed, ◌>>=◌}
use echolist_backend.Database.Types.{Tables}
use echolist_backend.Database.Conn.{
  Conn, Fault, DbError, finish, exec, query, transaction, settle, statement_under,
}

-- Whether the call succeeds or fails, `P` holds of the tables after it if it held before.
pub record Preserves {A : Type 0} (P : Tables → Type 0) (m : Action Conn DbError A) : Type 0 where
  pub at : (c : Conn) → P c.tables → P (m c).1.tables

module _ {A : Type 0} {P : Tables → Type 0} where
  pub Preserves-pure : (a : A) → Preserves P (pure a)
  Preserves-pure a = record { at = λ c h. h }

  pub Preserves-fail : (e : DbError) → Preserves {A = A} P (fail e)
  Preserves-fail e = record { at = λ c h. h }

  pub Preserves-if :
      (b : Bool) {m n : Action Conn DbError A}
      → Preserves P m
      → Preserves P n
      → Preserves P (if b then m else n)
  Preserves-if true km kn = km
  Preserves-if false km kn = kn

  settled :
      (r : Result DbError (A × Tables)) (t : Tables) (fs : List (Option Fault))
      → ((a : A) (t' : Tables) → r ≡ ok (a, t') → P t')
      → P t
      → P (settle r t fs).1.tables
  settled (ok (a, t')) t fs k h = k a t' refl
  settled (err e) t fs k h = h

  run_preserves :
      (f : Tables → Result DbError (A × Tables)) (fs : List (Option Fault)) (t : Tables)
      → ((a : A) (t' : Tables) → f t ≡ ok (a, t') → P t')
      → P t
      → P (statement_under f fs t).1.tables
  run_preserves f [] t k h = settled (f t) t [] k h
  run_preserves f (none ∷ fs) t k h = settled (f t) t fs k h
  run_preserves f (some x ∷ fs) t k h = h

  pub Preserves-exec :
      (f : Tables → Result DbError (A × Tables))
      → ((t : Tables) (a : A) (t' : Tables) → f t ≡ ok (a, t') → P t → P t')
      → Preserves P (exec f)
  unfolding exec
  Preserves-exec f k = record {
    at = λ c h. run_preserves f c.faults c.tables (λ a t' e. k c.tables a t' e h) h;
  }

  -- A statement that no constraint can refuse.
  pub Preserves-write :
      (v : Tables → A) (g : Tables → Tables)
      → ((t : Tables) → P t → P (g t))
      → Preserves P (exec (λ t. ok (v t, g t)))
  Preserves-write v g k = Preserves-exec _ (λ t a t' e h. ground (arith, k t h))

  pub Preserves-query : (f : Tables → A) → Preserves P (query f)
  unfolding query
  Preserves-query f = Preserves-write f (λ t. t) (λ t h. h)

module _ {A B : Type 0} {P : Tables → Type 0} where
  after_result :
      (r : Result DbError A) (f : A → Action Conn DbError B) (c : Conn)
      → ((a : A) → Preserves P (f a))
      → P c.tables
      → P (proceed f r c).1.tables
  after_result (ok a) f c k h = (k a).at c h
  after_result (err e) f c k h = h

  pub Preserves-bind :
      (m : Action Conn DbError A) (f : A → Action Conn DbError B)
      → Preserves P m
      → ((a : A) → Preserves P (f a))
      → Preserves P (m >>= f)
  Preserves-bind m f km kf = record { at = λ c h. after_result (m c).0 f (m c).1 kf (km.at c h) }

module _ {A : Type 0} where
  finish_preserves :
      (Q : Tables → Type 0) (before : Tables) (r : Result DbError A × Conn)
      → Q before
      → Q r.1.tables
      → Q (finish before r).1.tables
  finish_preserves Q before (ok a, c) hb hc = hc
  finish_preserves Q before (err e, c) hb hc = hb

module _ {A : Type 0} {P : Tables → Type 0} where
  -- A transaction preserves what its body preserves.
  pub Preserves-transaction :
      (body : Action Conn DbError A) → Preserves P body → Preserves P (transaction body)
  unfolding transaction
  Preserves-transaction body k = record {
    at = λ c h. finish_preserves P c.tables _ h (
        (Preserves-bind _ _ (Preserves-write (λ t. tt) (λ t. t) (λ t q. q)) (λ u.
            Preserves-bind body _ k (λ a.
              Preserves-bind _ _ (Preserves-write (λ t. tt) (λ t. t) (λ t q. q))
                (λ u'. Preserves-pure a)))).at
          c h);
  }

pub ruleset preserves_rules = (
  Preserves-pure, Preserves-fail, Preserves-if, Preserves-query, Preserves-bind,
  Preserves-transaction,
)
