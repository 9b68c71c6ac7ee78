-- ===== src/Base/Triples.antt =====
-- Statements before and after a call, one rule for each way to compose calls.
use mathlib.Core.Path.{◌≡◌, subst}
use echolist_backend.Base.Action.{
  Result, ok, err, Action, pure, proceed, ◌>>=◌, after_error, on_error, ensuring,
}

module _ {ℓ} {S E A : Type ℓ} where
  -- One statement after a success, another after an error.
  abbrev pub Ends {κ} : (A → S → Type κ) → (E → S → Type κ) → Result E A × S → Type κ
  Ends Q R (ok a, s) = Q a s
  Ends Q R (err e, s) = R e s

  pub record Triple {κ} (P : S → Type κ) (m : Action S E A) (Q : A → S → Type κ)
      (R : E → S → Type κ) : Type (ℓ ⊔ κ) where
    pub at : (s : S) → P s → Ends Q R (m s)

  pub Triple-pure {κ} :
      {P : S → Type κ} {Q : A → S → Type κ} {R : E → S → Type κ} (a : A)
      → ((s : S) → P s → Q a s)
      → Triple P (pure a) Q R
  Triple-pure a k = record { at = k }

  pub ends-map {κ} :
      {Q : A → S → Type κ} {R : E → S → Type κ} (Q' : A → S → Type κ) (R' : E → S → Type κ)
      (p : Result E A × S)
      → ((a : A) (s : S) → Q a s → Q' a s)
      → ((e : E) (s : S) → R e s → R' e s)
      → Ends Q R p
      → Ends Q' R' p
  ends-map Q' R' (ok a, s) q r h = q a s h
  ends-map Q' R' (err e, s) q r h = r e s h

  pub ends-ok {κ} :
      (Q : A → S → Type κ) (R : E → S → Type κ) (p : Result E A × S) (a : A) (s : S)
      → p ≡ (ok a, s)
      → Ends Q R p
      → Q a s
  ends-ok Q R p a s h = subst (λ r. Ends Q R r) h

  -- What holds after a success and after an error.
  pub ends-both {κ} :
      (P : S → Type κ) (p : Result E A × S) → Ends (λ _ s. P s) (λ _ s. P s) p → P p.1
  ends-both P (ok a, s) h = h
  ends-both P (err e, s) h = h

  pub Triple-weaken {κ} :
      {P P' : S → Type κ} {Q Q' : A → S → Type κ} {R R' : E → S → Type κ} {m : Action S E A}
      → Triple P m Q R
      → ((s : S) → P' s → P s)
      → ((a : A) (s : S) → Q a s → Q' a s)
      → ((e : E) (s : S) → R e s → R' e s)
      → Triple P' m Q' R'
  Triple-weaken {m = m} t p q r = record { at = λ s h. ends-map _ _ (m s) q r (t.at s (p s h)) }

module _ {ℓ} {S E A B : Type ℓ} where
  proceed-ends {κ} :
      {Q : A → S → Type κ} {Q' : B → S → Type κ} {R : E → S → Type κ} (f : A → Action S E B)
      (p : Result E A × S)
      → Ends Q R p
      → ((a : A) → Triple (Q a) (f a) Q' R)
      → Ends Q' R (proceed f p.0 p.1)
  proceed-ends f (ok a, s) h k = (k a).at s h
  proceed-ends f (err e, s) h k = h

  pub Triple-bind {κ} :
      {P : S → Type κ} {Q : A → S → Type κ} {Q' : B → S → Type κ} {R : E → S → Type κ}
      {m : Action S E A} {f : A → Action S E B}
      → Triple P m Q R
      → ((a : A) → Triple (Q a) (f a) Q' R)
      → Triple P (m >>= f) Q' R
  Triple-bind {m = m} {f = f} h k = record { at = λ s p. proceed-ends f (m s) (h.at s p) k }

  after_error-ends {κ} :
      {R : E → S → Type κ} (Q : A → S → Type κ) (R' : E → S → Type κ) (p : Result E A × S)
      (cleanup : Action S E B)
      → Ends Q R p
      → ((e : E) (s : S) → R e s → R' e (cleanup s).1)
      → Ends Q R' (after_error cleanup p.0 p.1)
  after_error-ends Q R' (ok a, s) cleanup h k = h
  after_error-ends Q R' (err e, s) cleanup h k = k e s h

  pub Triple-on_error {κ} :
      {P : S → Type κ} {Q : A → S → Type κ} {R R' : E → S → Type κ} {m : Action S E A}
      (cleanup : Action S E B)
      → Triple P m Q R
      → ((e : E) (s : S) → R e s → R' e (cleanup s).1)
      → Triple P (on_error m cleanup) Q R'
  Triple-on_error {m = m} cleanup t k = record {
    at = λ s p. after_error-ends _ _ (m s) cleanup (t.at s p) k;
  }

  ensuring-ends {κ} :
      {Q : A → S → Type κ} {R : E → S → Type κ} (Q' : A → S → Type κ) (R' : E → S → Type κ)
      (p : Result E A × S) (d : Action S E B)
      → Ends Q R p
      → ((a : A) (s : S) → Q a s → Q' a (d s).1)
      → ((e : E) (s : S) → R e s → R' e (d s).1)
      → Ends Q' R' (p.0, (d p.1).1)
  ensuring-ends Q' R' (ok a, s) d h q r = q a s h
  ensuring-ends Q' R' (err e, s) d h q r = r e s h

  pub Triple-ensuring {κ} :
      {P : S → Type κ} {Q Q' : A → S → Type κ} {R R' : E → S → Type κ} {m : Action S E A}
      (d : Action S E B)
      → Triple P m Q R
      → ((a : A) (s : S) → Q a s → Q' a (d s).1)
      → ((e : E) (s : S) → R e s → R' e (d s).1)
      → Triple P (ensuring m d) Q' R'
  Triple-ensuring {m = m} d t q r = record { at = λ s p. ensuring-ends _ _ (m s) d (t.at s p) q r }
