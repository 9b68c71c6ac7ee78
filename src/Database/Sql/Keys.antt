-- ===== src/Database/Sql/Keys.antt =====
-- Keys of tables: membership under insertion and deletion, and uniqueness.
use echolist_backend.Base.{
  Bool, true, false, not, Option, none, some, List, [], ◌∷◌, ◌++◌, map, select, Bytes, str_eq_refl,
  str_eq_iff, contains, contains-append, ◌≡◌, refl, arith,
}
use echolist_backend.Database.Sql.{refers, satisfied}

-- A list with no key twice.
abbrev pub Unique : List Bytes → Type 0
Unique [] = Unit
Unique (k ∷ ks) = (contains ks k ≡ false) × Unique ks

pub Unique-append :
    (ks : List Bytes) (k : Bytes) → Unique ks → contains ks k ≡ false → Unique (ks ++ (k ∷ []))
unfolding contains
Unique-append [] k u h = (refl, tt)
Unique-append (j ∷ ks) k u h =
    ground
      (arith, Unique-append ks k u.1, contains-append ks (k ∷ []) j, str_eq_iff k j, str_eq_refl j)

pub satisfied-append :
    (ks more : List Bytes) (o : Option Bytes)
    → satisfied ks o ≡ true
    → satisfied (ks ++ more) o ≡ true
satisfied-append ks more none h = refl
satisfied-append ks more (some k) h = ground (arith, contains-append ks more k)

module _ {ℓ} {A : Type ℓ} (key : A → Bytes) (p : A → Bool) where
  pub contains-select :
      (xs : List A) (k : Bytes)
      → contains (map key xs) k ≡ false
      → contains (map key (select p xs)) k ≡ false
  unfolding contains
  contains-select [] k h = refl
  contains-select (x ∷ xs) k h = ground (arith, contains-select xs k)

  pub Unique-select : (xs : List A) → Unique (map key xs) → Unique (map key (select p xs))
  Unique-select [] u = tt
  Unique-select (x ∷ xs) u = ground (arith, Unique-select xs u.1, contains-select xs (key x))

  -- A key that is there, and not among what is deleted, stays.
  pub contains-select-not :
      (xs : List A) (k : Bytes)
      → contains (map key xs) k ≡ true
      → contains (map key (select p xs)) k ≡ false
      → contains (map key (select (λ x. not (p x)) xs)) k ≡ true
  unfolding contains
  contains-select-not [] k h g = cc
  contains-select-not (x ∷ xs) k h g = ground (arith, contains-select-not xs k)

  pub satisfied-select-not :
      (xs : List A) (o : Option Bytes)
      → satisfied (map key xs) o ≡ true
      → refers (map key (select p xs)) o ≡ false
      → satisfied (map key (select (λ x. not (p x)) xs)) o ≡ true
  satisfied-select-not xs none h g = refl
  satisfied-select-not xs (some k) h g = contains-select-not xs k h g
