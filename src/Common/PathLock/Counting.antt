-- ===== src/Common/PathLock/Counting.antt =====
-- The locks that the threads of common/pathlock.go wait for or hold, and how often an entry is
-- among them.
use echolist_backend.Base.{
  ℕ, suc, ◌+◌, ◌≤◌, Option, none, some, List, [], ◌∷◌, ◌++◌, ◌==◌, if◌then◌else◌, All, Bytes,
  str_eq_iff, ◌≡◌, refl, arith,
}
use echolist_backend.Common.PathLock.{
  Locked, Pc, idle, locking, waiting, unlocking, leaving, at_path,
}

-- The entries that a thread is counted in, and those whose mutex it holds.
abbrev pub refs : Pc → List Locked
refs idle = []
refs (locking o t) = o
refs (waiting p a o t) = (p, a) ∷ o
refs (unlocking o) = o
refs (leaving p a o) = (p, a) ∷ o

abbrev pub owned_by : Pc → List Locked
owned_by idle = []
owned_by (locking o t) = o
owned_by (waiting p a o t) = o
owned_by (unlocking o) = o
owned_by (leaving p a o) = o

abbrev pub count : ℕ → List Locked → ℕ
count a [] = 0
count a (r ∷ rs) = let n = count a rs in if r.1 == a then suc n else n

abbrev pub total : (Pc → ℕ) → List Pc → ℕ
total f [] = 0
total f (t ∷ ts) = f t + total f ts

abbrev pub waiting_for : ℕ → Pc → ℕ
waiting_for a t = count a (refs t)

abbrev pub owning : ℕ → Pc → ℕ
owning a t = count a (owned_by t)

pub total-middle :
    (f : Pc → ℕ) (xs ys : List Pc) (t : Pc) → total f (xs ++ (t ∷ ys)) ≡ f t + total f (xs ++ ys)
total-middle f [] ys t = refl
total-middle f (x ∷ xs) ys t = omega (arith, total-middle f xs ys t)

owning-le : (a : ℕ) (t : Pc) → owning a t ≤ waiting_for a t
owning-le a idle = omega arith
owning-le a (locking o t) = omega arith
owning-le a (waiting p b o t) = ground arith
owning-le a (unlocking o) = omega arith
owning-le a (leaving p b o) = ground arith

pub total-owning-le : (a : ℕ) (ts : List Pc) → total (owning a) ts ≤ total (waiting_for a) ts
total-owning-le a [] = omega arith
total-owning-le a (t ∷ ts) = omega (arith, owning-le a t, total-owning-le a ts)

pub All-middle {κ} :
    (P : Pc → Type κ) (xs ys : List Pc) (t : Pc) → All P (xs ++ (t ∷ ys)) → P t × All P (xs ++ ys)
All-middle P [] ys t h = h
All-middle P (x ∷ xs) ys t h = let (p, rest) = All-middle P xs ys t h.1 in (p, (h.0, rest))

pub middle-All {κ} :
    (P : Pc → Type κ) (xs ys : List Pc) (t : Pc) → P t → All P (xs ++ ys) → All P (xs ++ (t ∷ ys))
middle-All P [] ys t p h = (p, h)
middle-All P (x ∷ xs) ys t p h = (h.0, middle-All P xs ys t p h.1)

-- Each of the locks has the entry that the table has for its path.
abbrev pub Points : (Bytes → Option ℕ) → List Locked → Type 0
Points table rs = All (λ (r : Locked). table r.0 ≡ some r.1) rs

-- A path that had no entry gets one.
pub Points-added :
    (table : Bytes → Option ℕ) (p : Bytes) (a : ℕ) (rs : List Locked)
    → table p ≡ none
    → Points table rs
    → Points (at_path table p (some a)) rs
Points-added table p a [] h g = tt
Points-added table p a (r ∷ rs) h g = (added r g.0, Points-added table p a rs h g.1)
  where
    added : (r : Locked) → table r.0 ≡ some r.1 → at_path table p (some a) r.0 ≡ some r.1
    added r g = ground (arith, str_eq_iff p r.0)

-- The path of an entry that is not among the locks loses it.
pub Points-dropped :
    (table : Bytes → Option ℕ) (p : Bytes) (a : ℕ) (rs : List Locked)
    → table p ≡ some a
    → count a rs ≡ 0
    → Points table rs
    → Points (at_path table p none) rs
Points-dropped table p a [] h n g = tt
Points-dropped table p a (r ∷ rs) h n g =
    (dropped r n g.0, Points-dropped table p a rs h (fewer r n) g.1)
  where
    dropped :
        (r : Locked)
        → count a (r ∷ rs) ≡ 0
        → table r.0 ≡ some r.1
        → at_path table p none r.0 ≡ some r.1
    dropped r n g = ground (arith, str_eq_iff p r.0)

    fewer : (r : Locked) → count a (r ∷ rs) ≡ 0 → count a rs ≡ 0
    fewer r n = ground arith
