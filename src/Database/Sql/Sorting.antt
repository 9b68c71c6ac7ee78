-- ===== src/Database/Sql/Sorting.antt =====
-- What ORDER BY, a stable sort, does to the rows that a test selects.
use echolist_backend.Base.{
  Bool, true, false, ◌&&◌, ◌||◌, not, List, [], ◌∷◌, ◌++◌, All-append, select, All, ◌≡◌, refl,
  arith,
}
use echolist_backend.Database.Sql.{insert_sorted, order_by}

module _ {ℓ} {A : Type ℓ} (le : A → A → Bool) where
  All-insert_sorted {κ} :
      (P : A → Type κ) (x : A) (ys : List A) → P x → All P ys → All P (insert_sorted le x ys)
  unfolding insert_sorted
  All-insert_sorted P x [] hx h = (hx, tt)
  All-insert_sorted P x (y ∷ ys) hx h = ground (arith, All-insert_sorted P x ys hx h.1)

  All-order_by {κ} : (P : A → Type κ) (xs : List A) → All P xs → All P (order_by le xs)
  unfolding order_by
  All-order_by P [] h = tt
  All-order_by P (x ∷ xs) h = All-insert_sorted P x (order_by le xs) h.0 (All-order_by P xs h.1)

  module _ (p : A → Bool) where
    -- If both pass the test, the first is not behind the second.
    abbrev pub before : A → A → Bool
    before x y = not (p x && p y) || le x y

    -- Those that pass the test are in order.
    abbrev pub Ordered : List A → Type 0
    Ordered [] = Unit
    Ordered (x ∷ xs) = All (λ y. before x y ≡ true) xs × Ordered xs

    select-insert_sorted :
        (x : A) (ys : List A)
        → All (λ y. before x y ≡ true) ys
        → select p (insert_sorted le x ys) ≡ select p (x ∷ ys)
    unfolding insert_sorted
    select-insert_sorted x [] h = refl
    select-insert_sorted x (y ∷ ys) h = ground (arith, select-insert_sorted x ys h.1, h.0)

    -- A selection whose rows are in order comes out of the sort as it is.
    pub select-order_by : (xs : List A) → Ordered xs → select p (order_by le xs) ≡ select p xs
    unfolding order_by
    select-order_by [] h = refl
    select-order_by (x ∷ xs) h = ground (
      arith,
      select-insert_sorted x (order_by le xs) (All-order_by (λ y. before x y ≡ true) xs h.0),
      select-order_by xs h.1,
    )

    pub before-untested : (x : A) (ys : List A) → p x ≡ false → All (λ y. before x y ≡ true) ys
    before-untested x [] h = tt
    before-untested x (y ∷ ys) h = (ground arith, before-untested x ys h)

    pub Ordered-untested-append :
        (xs ys : List A) → All (λ x. p x ≡ false) xs → Ordered ys → Ordered (xs ++ ys)
    Ordered-untested-append [] ys h g = g
    Ordered-untested-append (x ∷ xs) ys h g =
        (before-untested x (xs ++ ys) h.0, Ordered-untested-append xs ys h.1 g)

    untested-before :
        (x : A) (ys : List A) → All (λ y. p y ≡ false) ys → All (λ y. before x y ≡ true) ys
    untested-before x [] h = tt
    untested-before x (y ∷ ys) h = (ground (arith, h.0), untested-before x ys h.1)

    pub Ordered-append-untested :
        (xs ys : List A) → Ordered xs → All (λ y. p y ≡ false) ys → Ordered (xs ++ ys)
    Ordered-append-untested [] [] g h = tt
    Ordered-append-untested [] (y ∷ ys) g h =
        (before-untested y ys h.0, Ordered-append-untested [] ys g h.1)
    Ordered-append-untested (x ∷ xs) ys g h =
        (All-append _ xs ys g.0 (untested-before x ys h), Ordered-append-untested xs ys g.1 h)
