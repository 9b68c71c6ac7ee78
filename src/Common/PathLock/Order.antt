-- ===== src/Common/PathLock/Order.antt =====
-- The order in which LockMany of common/pathlock.go locks its paths.
use echolist_backend.Base.{
  Bool, true, false, not, ◌&&◌, List, [], ◌∷◌, if◌then◌else◌, All, All-map, Bytes, str_eq,
  str_eq_iff, str_le, contains, ◌≡◌, refl, arith,
}
use echolist_backend.Common.PathLock.{unique_from, insert_sorted, sort_strings, lock_order}

pub str_le_total : (s t : Bytes) → str_le s t ≡ false → str_le t s ≡ true
unfolding str_le
str_le_total [] t h = ground arith
str_le_total (x ∷ xs) [] h = refl
str_le_total (x ∷ xs) (y ∷ ys) h = ground (arith, str_le_total xs ys)

pub str_le_trans : (s t u : Bytes) → str_le s t ≡ true → str_le t u ≡ true → str_le s u ≡ true
unfolding str_le
str_le_trans [] t u h g = refl
str_le_trans (x ∷ xs) [] u h g = ground arith
str_le_trans (x ∷ xs) (y ∷ ys) [] h g = ground arith
str_le_trans (x ∷ xs) (y ∷ ys) (z ∷ zs) h g = ground (arith, str_le_trans xs ys zs)

str_le_antisym : (s t : Bytes) → str_le s t ≡ true → str_le t s ≡ true → str_eq s t ≡ true
unfolding str_le str_eq
str_le_antisym [] [] h g = refl
str_le_antisym [] (y ∷ ys) h g = ground arith
str_le_antisym (x ∷ xs) [] h g = ground arith
str_le_antisym (x ∷ xs) (y ∷ ys) h g = ground (arith, str_le_antisym xs ys)

-- The strict order of paths.
abbrev pub before_path : Bytes → Bytes → Bool
before_path s t = str_le s t && not (str_eq s t)

pub before_path_trans :
    (s t u : Bytes) → before_path s t ≡ true → before_path t u ≡ true → before_path s u ≡ true
before_path_trans s t u h g = ground (
  arith,
  str_le_trans s t u,
  str_le_antisym t s,
  str_eq_iff s u,
  str_eq_iff s t,
  str_eq_iff t u,
  str_eq_iff t s,
)

-- A path is not before one that is at most as large.
pub before_path-not_le : (s t : Bytes) → before_path s t ≡ true → str_le t s ≡ false
before_path-not_le s t h = ground (arith, str_le_antisym s t)

-- Strictly ascending: sorted, and each path once.
abbrev pub Ascending : List Bytes → Type 0
Ascending [] = Unit {0}
Ascending (p ∷ ps) = All (λ q. before_path p q ≡ true) ps × Ascending ps

in_branches :
    {A : Type 0} (P : A → Type 0) (b : Bool) (x y : A)
    → (b ≡ true → P x)
    → (b ≡ false → P y)
    → P (if b then x else y)
in_branches P true x y h g = h refl
in_branches P false x y h g = g refl

All-insert_sorted :
    (P : Bytes → Type 0) (p : Bytes) (qs : List Bytes) → P p → All P qs → All P (insert_sorted p qs)
unfolding insert_sorted
All-insert_sorted P p [] h g = (h, tt)
All-insert_sorted P p (q ∷ qs) h g =
    in_branches (All P) (str_le p q) (p ∷ q ∷ qs) (q ∷ insert_sorted p qs) (λ e. (h, g))
      (λ e. (g.0, All-insert_sorted P p qs h g.1))

-- A path is none of the list.
abbrev Absent : Bytes → List Bytes → Type 0
Absent p qs = All (λ q. str_eq p q ≡ false) qs

abbrev Distinct : List Bytes → Type 0
Distinct [] = Unit {0}
Distinct (p ∷ ps) = Absent p ps × Distinct ps

insert_sorted-Ascending :
    (p : Bytes) (qs : List Bytes) → Absent p qs → Ascending qs → Ascending (insert_sorted p qs)
unfolding insert_sorted
insert_sorted-Ascending p [] h g = (tt, tt)
insert_sorted-Ascending p (q ∷ qs) h g =
    in_branches Ascending (str_le p q) (p ∷ q ∷ qs) (q ∷ insert_sorted p qs)
      (λ e.
        let first : before_path p q ≡ true = ground (arith, h.0) in
        ((first, All-map qs (λ r x. before_path_trans p q r first x) g.0), g))
      (λ e.
        let behind : before_path q p ≡ true =
          ground (arith, h.0, str_le_total p q, str_eq_iff p q, str_eq_iff q p) in
        (
          All-insert_sorted (λ r. before_path q r ≡ true) p qs behind g.0,
          insert_sorted-Ascending p qs h.1 g.1,
        ))

sort_strings-Ascending : (ps : List Bytes) → Distinct ps → Ascending (sort_strings ps)
unfolding sort_strings
sort_strings-Ascending [] h = tt
sort_strings-Ascending (p ∷ ps) h =
    insert_sorted-Ascending p (sort_strings ps) (absent ps h.0) (sort_strings-Ascending ps h.1)
  where
    absent : (qs : List Bytes) → Absent p qs → Absent p (sort_strings qs)
    absent [] g = tt
    absent (q ∷ qs) g =
        All-insert_sorted (λ r. str_eq p r ≡ false) q (sort_strings qs) g.0 (absent qs g.1)

unique_from-Distinct :
    (seen ps : List Bytes)
    → All (λ q. contains seen q ≡ false) (unique_from seen ps) × Distinct (unique_from seen ps)
unfolding unique_from contains
unique_from-Distinct seen [] = (tt, tt)
unique_from-Distinct seen (p ∷ ps) =
    let (new, apart) = unique_from-Distinct (p ∷ seen) ps in
    in_branches (λ qs. All (λ q. contains seen q ≡ false) qs × Distinct qs) (contains seen p)
      (unique_from seen ps) (p ∷ unique_from (p ∷ seen) ps) (λ e. unique_from-Distinct seen ps)
      (λ e. (
        (e, All-map (unique_from (p ∷ seen) ps) (λ q x. ground arith) new),
        (All-map (unique_from (p ∷ seen) ps) (λ q x. ground arith) new, apart),
      ))

-- LockMany locks its paths in strictly ascending order.
pub lock_order-Ascending : (paths : List Bytes) → Ascending (lock_order paths)
unfolding lock_order
lock_order-Ascending paths =
    sort_strings-Ascending (unique_from [] paths) (unique_from-Distinct [] paths).1
