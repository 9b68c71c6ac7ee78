-- ===== src/Common/PathLock/Exclusion.antt =====
-- Whom the Locker of common/pathlock.go lets in, and which entries it keeps.
use echolist_backend.Base.{
  ℕ, zero, suc, ◌≤◌, Bool, true, false, Option, none, some, List, [], ◌∷◌, ◌++◌, if◌then◌else◌, ltb,
  Bytes, str_eq, str_eq_iff, Option-cases, inl, inr, ◌≡◌, refl, arith,
}
use echolist_backend.Common.PathLock.{
  Locker, Locked, Pc, idle, locking, waiting, unlocking, leaving, lock_order, idle_threads,
  new_locker, System, Step, move, call, Reach, start, later,
}
use echolist_backend.Common.PathLock.Counting.{
  refs, owned_by, count, total, waiting_for, owning, Points,
}
use echolist_backend.Common.PathLock.Invariant.{
  Inv, AllPoint, to_front, from_front, same_locks, moved-Inv,
}

pub idle-Inv : (n : ℕ) → Inv new_locker (idle_threads n)
idle-Inv n = record {
  pointers = points n;
  counted = λ a. unused a n;
  holders = λ a. unowned a n;
  used = λ p a h. ground arith;
  bounded = λ p a h. ground arith;
  injective = λ p q a h g. ground arith;
  fresh = λ a h. refl;
}
  where
    points : (n : ℕ) → AllPoint new_locker.table (idle_threads n)
    points zero = tt
    points (suc n) = (tt, points n)

    unused : (a n : ℕ) → 0 ≡ total (waiting_for a) (idle_threads n)
    unused a zero = refl
    unused a (suc n) = omega (arith, unused a n)

    unowned : (a n : ℕ) → total (owning a) (idle_threads n) ≡ 0
    unowned a zero = refl
    unowned a (suc n) = omega (arith, unowned a n)

Step-Inv : (s t : System) → Step s t → Inv s.locker s.threads → Inv t.locker t.threads
Step-Inv _ _ (move {l = l} {l' = l'} {p = p} {p' = p'} before after m) i =
    from_front l' before after p'
      (moved-Inv l l' p p' (before ++ after) m (to_front l before after p i))
Step-Inv _ _ (call {l = l} before after paths) i =
    from_front l before after (locking [] (lock_order paths)) (
      same_locks l idle (locking [] (lock_order paths)) (before ++ after) refl refl
        (to_front l before after idle i))

pub Reach-Inv : (n : ℕ) (s : System) → Reach n s → Inv s.locker s.threads
Reach-Inv n _ start = idle-Inv n
Reach-Inv n t (later {s = s} r m) = Step-Inv s t m (Reach-Inv n s r)

-- How many of the locks are on a path.
abbrev pub on_path : Bytes → List Locked → ℕ
on_path p [] = 0
on_path p (r ∷ rs) = let n = on_path p rs in if str_eq r.0 p then suc n else n

abbrev pub using : Bytes → Pc → ℕ
using p t = on_path p (refs t)

abbrev pub holding : Bytes → Pc → ℕ
holding p t = on_path p (owned_by t)

module _ (l : Locker) where
  -- An entry belongs to one path.
  abbrev Injective : Type 0
  Injective = (p q : Bytes) (a : ℕ) → l.table p ≡ some a → l.table q ≡ some a → p ≡ q

  on_path-count :
      (p : Bytes) (a : ℕ) (rs : List Locked)
      → Injective
      → l.table p ≡ some a
      → Points l.table rs
      → on_path p rs ≡ count a rs
  on_path-count p a [] i h g = refl
  on_path-count p a (r ∷ rs) i h g =
      ground (arith, on_path-count p a rs i h g.1, i r.0 p a, str_eq_iff r.0 p)

  on_path-none :
      (p : Bytes) (rs : List Locked) → l.table p ≡ none → Points l.table rs → on_path p rs ≡ 0
  on_path-none p [] h g = refl
  on_path-none p (r ∷ rs) h g = ground (arith, on_path-none p rs h g.1, str_eq_iff r.0 p)

owned-Points :
    (table : Bytes → Option ℕ) (t : Pc) → Points table (refs t) → Points table (owned_by t)
owned-Points table idle h = h
owned-Points table (locking o t) h = h
owned-Points table (waiting p a o t) h = h.1
owned-Points table (unlocking o) h = h
owned-Points table (leaving p a o) h = h.1

module _ (l : Locker) where
  total-holding :
      (p : Bytes) (a : ℕ) (ts : List Pc)
      → Injective l
      → l.table p ≡ some a
      → AllPoint l.table ts
      → total (holding p) ts ≡ total (owning a) ts
  total-holding p a [] i h g = refl
  total-holding p a (t ∷ ts) i h g = omega (
    arith,
    on_path-count l p a (owned_by t) i h (owned-Points l.table t g.0),
    total-holding p a ts i h g.1,
  )

  total-using :
      (p : Bytes) (a : ℕ) (ts : List Pc)
      → Injective l
      → l.table p ≡ some a
      → AllPoint l.table ts
      → total (using p) ts ≡ total (waiting_for a) ts
  total-using p a [] i h g = refl
  total-using p a (t ∷ ts) i h g =
      omega (arith, on_path-count l p a (refs t) i h g.0, total-using p a ts i h g.1)

  none-using :
      (p : Bytes) (ts : List Pc)
      → l.table p ≡ none
      → AllPoint l.table ts
      → (total (using p) ts ≡ 0) × (total (holding p) ts ≡ 0)
  none-using p [] h g = (refl, refl)
  none-using p (t ∷ ts) h g =
      let (u, v) = none-using p ts h g.1 in
      (
        omega (arith, on_path-none l p (refs t) h g.0, u),
        omega (arith, on_path-none l p (owned_by t) h (owned-Points l.table t g.0), v),
      )

-- However many threads lock whichever paths, in whichever order their steps come, at most one of
-- them holds the lock of a path, and holds it once.
pub Reach-exclusive : (n : ℕ) (s : System) (p : Bytes) → Reach n s → total (holding p) s.threads ≤ 1
Reach-exclusive n s p r =
    let i = Reach-Inv n s r in
    elim (Option-cases (s.locker.table p)) [
      | inl h ↦ omega (arith, (none-using s.locker p s.threads h i.pointers).1)
      | inr (a, h) ↦
          ground (arith, total-holding s.locker p a s.threads i.injective h i.pointers, i.holders a)
    ]

abbrev pub has_entry : Option ℕ → Bool
has_entry none = false
has_entry (some a) = true

-- The Locker keeps an entry for exactly the paths that some thread waits for, holds, or is about
-- to leave: none is dropped while it is in use, and none is left behind.
pub Reach-entries :
    (n : ℕ) (s : System) (p : Bytes)
    → Reach n s
    → has_entry (s.locker.table p) ≡ ltb 0 (total (using p) s.threads)
Reach-entries n s p r =
    let i = Reach-Inv n s r in
    elim (Option-cases (s.locker.table p)) [
      | inl h ↦ ground (arith, (none-using s.locker p s.threads h i.pointers).0)
      | inr (a, h) ↦ ground (
        arith,
        total-using s.locker p a s.threads i.injective h i.pointers,
        i.used p a h,
        i.counted a,
      )
    ]
