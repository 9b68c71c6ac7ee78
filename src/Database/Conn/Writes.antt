-- ===== src/Database/Conn/Writes.antt =====
-- What a call of database/database.go has written when it succeeds: one rule for each way to build a
-- call.
use echolist_backend.Base.{sym, Option, none, some, List, [], ◌∷◌, ◌≡◌, refl, ap, ◌∙◌, arith}
use echolist_backend.Base.Action.{
  Result, ok, err, Action, pure, proceed, ◌>>=◌, >>=-InTurn, pure-injective,
}
use echolist_backend.Database.Types.{Tables}
use echolist_backend.Database.Conn.{
  Conn, Fault, DbError, finish, exec, query, transaction, settle, statement_under,
}

-- After a success the result satisfies `V` and the tables are those before it under `g`.
pub record Writes {A : Type 0} (V : A → Type 0) (g : Tables → Tables) (m : Action Conn DbError A)
    : Type 0 where
  pub at : (c : Conn) (a : A) (c' : Conn) → m c ≡ (ok a, c') → V a × (c'.tables ≡ g c.tables)

finished :
    {A : Type 0} (before : Tables) (r : Result DbError A × Conn) (a : A) (c' : Conn)
    → finish before r ≡ (ok a, c')
    → r ≡ (ok a, c')
finished before (ok b, c) a c' h = h
finished before (err e, c) a c' h = ground arith

module _ {A : Type 0} {V : A → Type 0} where
  pub Writes-pure : (a : A) → V a → Writes V (λ t. t) (pure a)
  Writes-pure a v = record { at = λ c b c' h. ground (arith, v) }

  settled :
      (g : Tables → Tables) (r : Result DbError (A × Tables)) (t : Tables)
      (fs : List (Option Fault)) (a : A) (c' : Conn)
      → ((b : A) (t' : Tables) → r ≡ ok (b, t') → V b × (t' ≡ g t))
      → settle r t fs ≡ (ok a, c')
      → V a × (c'.tables ≡ g t)
  settled g (ok (b, t')) t fs a c' k h = let kept = k b t' refl in ground (arith, kept)
  settled g (err e) t fs a c' k h = ground arith

  run_writes :
      (f : Tables → Result DbError (A × Tables)) (g : Tables → Tables) (fs : List (Option Fault))
      (t : Tables) (a : A) (c' : Conn)
      → ((b : A) (t' : Tables) → f t ≡ ok (b, t') → V b × (t' ≡ g t))
      → statement_under f fs t ≡ (ok a, c')
      → V a × (c'.tables ≡ g t)
  run_writes f g [] t a c' k h = settled g (f t) t [] a c' k h
  run_writes f g (none ∷ fs) t a c' k h = settled g (f t) t fs a c' k h
  run_writes f g (some x ∷ fs) t a c' k h = ground arith

  pub Writes-exec :
      (f : Tables → Result DbError (A × Tables)) (g : Tables → Tables)
      → ((t : Tables) (b : A) (t' : Tables) → f t ≡ ok (b, t') → V b × (t' ≡ g t))
      → Writes V g (exec f)
  unfolding exec
  Writes-exec f g k = record {
    at = λ c a c' h. run_writes f g c.faults c.tables a c' (k c.tables) h;
  }

module _ {A B : Type 0} {V : A → Type 0} {W : B → Type 0} where
  proceeded :
      (h : Tables → Tables) (f : A → Action Conn DbError B) (r : Result DbError A × Conn)
      (t : Tables) (b : B) (c' : Conn)
      → ((a : A) (c1 : Conn) → r ≡ (ok a, c1) → V a × (c1.tables ≡ t))
      → ((a : A) → V a → Writes W h (f a))
      → proceed f r.0 r.1 ≡ (ok b, c')
      → W b × (c'.tables ≡ h t)
  proceeded h f (ok a, c1) t b c' first next e =
      let (v, same) = first a c1 refl in
      let (w, after) = (next a v).at c1 b c' e in (w, after ∙ ap h same)
  proceeded h f (err x, c1) t b c' first next e = ground arith

  pub Writes-bind :
      (g h : Tables → Tables) (m : Action Conn DbError A) (f : A → Action Conn DbError B)
      → Writes V g m
      → ((a : A) → V a → Writes W h (f a))
      → Writes W (λ t. h (g t)) (m >>= f)
  Writes-bind g h m f km kf = record {
    at = λ c b c' e. proceeded h f (m c) (g c.tables) b c' (λ a c1 e1. km.at c a c1 e1) kf e;
  }

Writes-noop : Writes {A = Unit {0}} (λ u. Unit {0}) (λ t. t) (exec (λ t. ok (tt, t)))
Writes-noop = Writes-exec (λ t. ok (tt, t)) (λ t. t) (λ t b t' h. (tt, ground arith))

module _ {A : Type 0} {V : A → Type 0} where
  pub Writes-transaction :
      (g : Tables → Tables) (m : Action Conn DbError A) → Writes V g m → Writes V g (transaction m)
  unfolding transaction
  Writes-transaction g m km = record {
    at = λ c a c' h.
        (Writes-bind (λ t. t) g (exec (λ t. ok (tt, t)))
            (λ u. m >>= λ a. exec (λ t. ok (tt, t)) >>= λ u. pure a) Writes-noop
            (λ u v.
              Writes-bind g (λ t. t) m (λ a. exec (λ t. ok (tt, t)) >>= λ u. pure a) km
                (λ a va.
                  Writes-bind (λ t. t) (λ t. t) (exec (λ t. ok (tt, t))) (λ u. pure a) Writes-noop
                    (λ u v. Writes-pure a va)))).at
          c a c' (finished c.tables _ a c' h);
  }

  -- The same effect, written otherwise.
  pub Writes-as :
      (g h : Tables → Tables) {m : Action Conn DbError A}
      → ((t : Tables) → g t ≡ h t)
      → Writes V g m
      → Writes V h m
  Writes-as g h same km = record {
    at = λ c a c' e. let (v, after) = km.at c a c' e in (v, after ∙ same c.tables);
  }

-- A query that succeeds returns what it reads, and a transaction what its body does.
module _ {A : Type 0} where
  read_settled :
      (f : Tables → A) (fs : List (Option Fault)) (t : Tables) (a : A) (c' : Conn)
      → statement_under (λ t. ok (f t, t)) fs t ≡ (ok a, c')
      → (a ≡ f t) × (c'.tables ≡ t)
  read_settled f [] t a c' h = ground arith
  read_settled f (none ∷ fs) t a c' h = ground arith
  read_settled f (some x ∷ fs) t a c' h = ground arith

  pub query-ok :
      (f : Tables → A) (c : Conn) (a : A) (c' : Conn)
      → query f c ≡ (ok a, c')
      → (a ≡ f c.tables) × (c'.tables ≡ c.tables)
  unfolding query
  query-ok f c a c' h = read_settled f c.faults c.tables a c' h

module _ {A : Type 0} where
  pub transaction-ok :
      (m : Action Conn DbError A) (c : Conn) (a : A) (c' : Conn)
      → transaction m c ≡ (ok a, c')
      → (c1 : Conn) × (c2 : Conn) × (c1.tables ≡ c.tables)
        × (m c1 ≡ (ok a, c2))
        × (c'.tables ≡ c2.tables)
  unfolding transaction exec
  transaction-ok m c a c' h =
      let done = finished c.tables _ a c' h in
      let (u, c1, begun, body) = >>=-InTurn (exec (λ t. ok (tt, t))) _ c c' a done in
      let (b, c2, ran, rest) = >>=-InTurn m _ c1 c' a body in
      let (u', c3, committed, last) = >>=-InTurn (exec (λ t. ok (tt, t))) _ c2 c' a rest in
      let (same, left) = pure-injective b a c3 c' last in
      let same1 = read_settled (λ t. tt) c.faults c.tables u c1 begun in
      let same3 = read_settled (λ t. tt) c2.faults c2.tables u' c3 committed in
      (c1, c2, same1.1, ran ∙ ap (λ x. (ok x, c2)) same, sym (ap (λ d. d.tables) left) ∙ same3.1)
