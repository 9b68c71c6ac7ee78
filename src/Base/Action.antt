-- ===== src/Base/Action.antt =====
-- Calls that may fail and that change a state: the result comes with the state that they leave,
-- after an error too.

use mathlib.Core.Path.{◌≡◌, refl, ap}
use native.Mathlib.Omega.{arith}

pub data Result {ℓ κ} (E : Type ℓ) (A : Type κ) : Type (ℓ ⊔ κ) where
  ok : A → Result E A
  err : E → Result E A

abbrev pub Action {ℓ} : Type ℓ → Type ℓ → Type ℓ → Type ℓ
Action S E A = S → Result E A × S

module _ {ℓ} {S E A : Type ℓ} where
  abbrev pub pure : A → Action S E A
  pure a s = (ok a, s)

  abbrev pub fail : E → Action S E A
  fail e s = (err e, s)

  abbrev pub lift : Result E A → Action S E A
  lift r s = (r, s)

module _ {ℓ} {S E A B : Type ℓ} where
  -- The rest of a block, after the outcome of its first call.
  abbrev pub proceed : (A → Action S E B) → Result E A → Action S E B
  proceed f (ok a) s = f a s
  proceed f (err e) s = (err e, s)

  pub proceed-ok :
      (f : A → Action S E B) (r : Result E A) (a : A) (s : S) → r ≡ ok a → proceed f r s ≡ f a s
  proceed-ok f r a s h = ap (λ v. proceed f v s) h

  -- What went before has succeeded if the rest did.
  pub proceed-inverse :
      (f : A → Action S E B) (r : Result E A) (s s' : S) (b : B)
      → proceed f r s ≡ (ok b, s')
      → (a : A) × (r ≡ ok a) × (f a s ≡ (ok b, s'))
  proceed-inverse f (ok a) s s' b h = (a, refl, h)
  proceed-inverse f (err e) s s' b h = ground arith

  infixl 5 ◌>>=◌ ◌>>◌
  abbrev pub ◌>>=◌ : Action S E A → (A → Action S E B) → Action S E B
  ◌>>=◌ m f s = let (r, s') = m s in proceed f r s'

  abbrev pub ◌>>◌ : Action S E A → Action S E B → Action S E B
  m >> n = m >>= λ _. n

-- A call whose error the caller inspects.
abbrev pub attempt {ℓ} : {S E F A : Type ℓ} → Action S E A → Action S F (Result E A)
attempt m s = let (r, s') = m s in (ok r, s')

module _ {ℓ} {S E A B : Type ℓ} where
  -- A block goes on with what its first call gave.
  pub >>=-ok :
      (m : Action S E A) (f : A → Action S E B) (s s1 : S) (a : A)
      → m s ≡ (ok a, s1)
      → (m >>= f) s ≡ f a s1
  >>=-ok m f s s1 a h = ap (λ p. proceed f p.0 p.1) h

-- A call whose outcome is dropped.
abbrev pub ignoring {ℓ} : {S E A : Type ℓ} → Action S E A → Action S E (Unit {ℓ})
ignoring m s = (ok tt, (m s).1)

module _ {ℓ} {S E A B : Type ℓ} where
  -- Calls made after an error, whose own outcome is dropped; the error stays.
  abbrev pub after_error : Action S E B → Result E A → S → Result E A × S
  after_error cleanup (ok a) s = (ok a, s)
  after_error cleanup (err e) s = (err e, (cleanup s).1)

  abbrev pub on_error : Action S E A → Action S E B → Action S E A
  on_error m cleanup s = let (r, s') = m s in after_error cleanup r s'

  -- A deferred call: it runs at the end, and its own outcome is dropped.
  abbrev pub ensuring : Action S E A → Action S E B → Action S E A
  ensuring m deferred s = let (r, s') = m s in (r, (deferred s').1)

module _ {ℓ} {S E A B : Type ℓ} where
  -- What a successful block has done: its first call succeeded, and the rest on its outcome.
  abbrev pub InTurn : Action S E A → (A → Action S E B) → S → B → S → Type ℓ
  InTurn m f s b s' = (a : A) × (s1 : S) × (m s ≡ (ok a, s1)) × (f a s1 ≡ (ok b, s'))

  succeeded :
      (m : Action S E A) (f : A → Action S E B) (s s' : S) (b : B) (r : Result E A × S)
      → m s ≡ r
      → proceed f r.0 r.1 ≡ (ok b, s')
      → InTurn m f s b s'
  succeeded m f s s' b (ok a, s1) first h = (a, s1, first, h)
  succeeded m f s s' b (err e, s1) first h = ground arith

  pub >>=-InTurn :
      (m : Action S E A) (f : A → Action S E B) (s s' : S) (b : B)
      → (m >>= f) s ≡ (ok b, s')
      → InTurn m f s b s'
  >>=-InTurn m f s s' b h = succeeded m f s s' b (m s) refl h

pub pure-injective {ℓ} :
    {S E A : Type ℓ} (a b : A) (s t : S) → pure {E = E} a s ≡ (ok b, t) → (a ≡ b) × (s ≡ t)
pure-injective a b s t h = ground arith
