-- ===== src/Common/PathLock/Progress.antt =====
-- LockMany of common/pathlock.go does not deadlock.
use echolist_backend.Base.{
  ℕ, zero, suc, Bool, true, false, some, List, [], ◌∷◌, ◌++◌, All, All-map, Bytes, str_le,
  Bool-cases, ◌⊎◌, inl, inr, ◌≡◌, refl, ap, arith,
}
use mathlib.Core.Path.{subst}
use echolist_backend.Common.PathLock.{
  Locker, Locked, Pc, idle, locking, waiting, unlocking, leaving, lock_order, idle_threads, System,
  Step, move, call, Reach, start, later, Move, enter_path, acquire, release, unlock, leave_path,
  finish, enter, set_held, leave,
}
use echolist_backend.Common.PathLock.Counting.{
  refs, count, total, owning, Points, All-middle, middle-All,
}
use echolist_backend.Common.PathLock.Invariant.{Inv, AllPoint}
use echolist_backend.Common.PathLock.Exclusion.{Reach-Inv}
use echolist_backend.Common.PathLock.Order.{
  str_le_total, str_le_trans, before_path, before_path-not_le, Ascending, lock_order-Ascending,
}

-- The paths that a thread has locked are before a path.
abbrev Behind : List Locked → Bytes → Type 0
Behind o q = All (λ (r : Locked). before_path r.0 q ≡ true) o

-- A thread locks its paths in ascending order.
abbrev Ordered : Pc → Type 0
Ordered idle = Unit {0}
Ordered (locking o t) = All (Behind o) t × Ascending t
Ordered (waiting p a o t) = All (Behind o) (p ∷ t) × Ascending (p ∷ t)
Ordered (unlocking o) = Unit {0}
Ordered (leaving p a o) = Unit {0}

with_next_lock :
    (p : Bytes) (a : ℕ) (o : List Locked) (t : List Bytes)
    → All (λ q. before_path p q ≡ true) t
    → All (Behind o) t
    → All (Behind ((p, a) ∷ o)) t
with_next_lock p a o [] h g = tt
with_next_lock p a o (q ∷ t) h g = ((h.0, g.0), with_next_lock p a o t h.1 g.1)

moved-Ordered : (l l' : Locker) (p p' : Pc) → Move l p l' p' → Ordered p → Ordered p'
moved-Ordered l _ _ _ (enter_path p {o = o} {t = t}) h = h
moved-Ordered l _ _ _ (acquire {p = p} {a = a} {o = o} {t = t} free) h =
    (with_next_lock p a o t h.1.0 h.0.1, h.1.1)
moved-Ordered l _ _ _ release h = tt
moved-Ordered l _ _ _ unlock h = tt
moved-Ordered l _ _ _ leave_path h = tt
moved-Ordered l _ _ _ finish h = tt

nothing_locked : (t : List Bytes) → All (Behind []) t
nothing_locked [] = tt
nothing_locked (q ∷ t) = (tt, nothing_locked t)

Step-Ordered : (s t : System) → Step s t → All Ordered s.threads → All Ordered t.threads
Step-Ordered _ _ (move {l = l} {l' = l'} {p = p} {p' = p'} xs ys m) h =
    let (here, rest) = All-middle Ordered xs ys p h in
    middle-All Ordered xs ys p' (moved-Ordered l l' p p' m here) rest
Step-Ordered _ _ (call {l = l} xs ys paths) h =
    middle-All Ordered xs ys (locking [] (lock_order paths))
      (nothing_locked (lock_order paths), lock_order-Ascending paths)
      (All-middle Ordered xs ys idle h).1

Reach-Ordered : (n : ℕ) (s : System) → Reach n s → All Ordered s.threads
Reach-Ordered n _ start = all_idle n
  where
    all_idle : (n : ℕ) → All Ordered (idle_threads n)
    all_idle zero = tt
    all_idle (suc n) = (tt, all_idle n)
Reach-Ordered n t (later {s = s} r m) = Step-Ordered s t m (Reach-Ordered n s r)

-- Some thread has a step of its own to make.
abbrev pub CanMove : Locker → List Pc → Type 0
CanMove l ts =
    (xs : List Pc) × (ys : List Pc) × (p : Pc) × (p' : Pc) × (l' : Locker) × (ts ≡ xs ++ (p ∷ ys))
    × Move l p l' p'

abbrev pub IsIdle : Pc → Type 0
IsIdle t = t ≡ idle

-- Idle, or waiting for a path that is at most `p`.
abbrev waits_up_to : Bytes → Pc → Bool
waits_up_to p idle = true
waits_up_to p (locking o t) = false
waits_up_to p (waiting q a o t) = str_le q p
waits_up_to p (unlocking o) = false
waits_up_to p (leaving q a o) = false

raised :
    (p q : Bytes) (t : Pc) → str_le p q ≡ true → waits_up_to p t ≡ true → waits_up_to q t ≡ true
raised p q idle h g = refl
raised p q (locking o t) h g = ground arith
raised p q (waiting r a o t) h g = str_le_trans r p q g h
raised p q (unlocking o) h g = ground arith
raised p q (leaving r a o) h g = ground arith

-- A thread among the others that waits for the last path.
abbrev LastWaiting : List Pc → Type 0
LastWaiting ts =
    (p : Bytes) × (a : ℕ) × (o : List Locked) × (t : List Bytes) × (xs : List Pc) × (ys : List Pc)
    × (ts ≡ xs ++ (waiting p a o t ∷ ys))
    × All (λ u. waits_up_to p u ≡ true) ts

later_moves : (l : Locker) (t : Pc) (ts : List Pc) → CanMove l ts → CanMove l (t ∷ ts)
later_moves l t ts (xs, ys, p, p', l', e, m) = (t ∷ xs, ys, p, p', l', ap (λ us. t ∷ us) e, m)

later_waits :
    (t : Pc) (ts : List Pc)
    → ((p : Bytes) (a : ℕ) → waits_up_to p t ≡ true)
    → LastWaiting ts
    → LastWaiting (t ∷ ts)
later_waits t ts h (p, a, o, w, xs, ys, e, all) =
    (p, a, o, w, t ∷ xs, ys, ap (λ us. t ∷ us) e, (h p a, all))

str_le_refl : (p : Bytes) → str_le p p ≡ true
str_le_refl p = elim (Bool-cases (str_le p p)) [ inl h ↦ h | inr h ↦ str_le_total p p h ]

idle_waits : (p : Bytes) (t : Pc) → IsIdle t → waits_up_to p t ≡ true
idle_waits p t h = ap (waits_up_to p) h

-- One more thread that waits.
waits_too :
    (l : Locker) (p : Bytes) (a : ℕ) (o : List Locked) (w : List Bytes) (ts : List Pc)
    → (All IsIdle ts ⊎ LastWaiting ts)
    → LastWaiting (waiting p a o w ∷ ts)
waits_too l p a o w ts (inl idles) =
    (p, a, o, w, [], ts, refl, (str_le_refl p, All-map ts (idle_waits p) idles))
waits_too l p a o w ts (inr (q, b, o', w', xs, ys, e, all)) = elim (Bool-cases (str_le p q)) [
  | inl h ↦ (q, b, o', w', waiting p a o w ∷ xs, ys, ap (λ us. waiting p a o w ∷ us) e, (h, all))
  | inr h ↦ (
    p,
    a,
    o,
    w,
    [],
    ts,
    refl,
    (str_le_refl p, All-map ts (λ t x. raised q p t (str_le_total p q h) x) all),
  )
]

abbrev Situation : Locker → List Pc → Type 0
Situation l ts = CanMove l ts ⊎ (All IsIdle ts ⊎ LastWaiting ts)

one_more :
    (l : Locker) (t : Pc) (ts : List Pc)
    → ((All IsIdle ts ⊎ LastWaiting ts) → All IsIdle (t ∷ ts) ⊎ LastWaiting (t ∷ ts))
    → Situation l ts
    → Situation l (t ∷ ts)
one_more l t ts f (inl m) = inl (later_moves l t ts m)
one_more l t ts f (inr h) = inr (f h)

idle_too :
    (ts : List Pc)
    → (All IsIdle ts ⊎ LastWaiting ts)
    → All IsIdle (idle ∷ ts) ⊎ LastWaiting (idle ∷ ts)
idle_too ts (inl h) = inl (refl, h)
idle_too ts (inr h) = inr (later_waits idle ts (λ p a. refl) h)

-- Some thread is neither idle nor waiting, or all are idle, or one waits for the last path.
situation : (l : Locker) (ts : List Pc) → Situation l ts
situation l [] = inr (inl tt)
situation l (idle ∷ ts) = one_more l idle ts (idle_too ts) (situation l ts)
situation l (waiting p a o w ∷ ts) =
    one_more l (waiting p a o w) ts (λ h. inr (waits_too l p a o w ts h)) (situation l ts)
situation l (locking o [] ∷ ts) = inl ([], ts, locking o [], unlocking o, l, refl, release)
situation l (locking o (p ∷ w) ∷ ts) =
    inl ([], ts, locking o (p ∷ w), waiting p (enter p l).0 o w, (enter p l).1, refl, enter_path p)
situation l (unlocking [] ∷ ts) = inl ([], ts, unlocking [], idle, l, refl, finish)
situation l (unlocking ((p, a) ∷ o) ∷ ts) =
    inl ([], ts, unlocking ((p, a) ∷ o), leaving p a o, set_held a false l, refl, unlock)
situation l (leaving p a o ∷ ts) =
    inl ([], ts, leaving p a o, unlocking o, leave p a l, refl, leave_path)

module _ (l : Locker) (p : Bytes) (a : ℕ) (here : l.table p ≡ some a)
    (injective : (q : Bytes) → l.table q ≡ some a → p ≡ q) where
  -- A thread that waits for a path up to `p` has not locked `p`.
  none_locked :
      (q : Bytes) (o : List Locked)
      → str_le q p ≡ true
      → Behind o q
      → Points l.table o
      → count a o ≡ 0
  none_locked q [] h g k = refl
  none_locked q (r ∷ o) h g k =
      ground (arith, none_locked q o h g.1 k.1, injective r.0, before_path-not_le r.0 q g.0)

  none_owns :
      (ts : List Pc)
      → AllPoint l.table ts
      → All Ordered ts
      → All (λ u. waits_up_to p u ≡ true) ts
      → total (owning a) ts ≡ 0
  none_owns [] k o h = refl
  none_owns (idle ∷ ts) k o h = omega (arith, none_owns ts k.1 o.1 h.1)
  none_owns (waiting q b os w ∷ ts) k o h =
      omega (arith, none_locked q os h.0 o.0.0.0 k.0.1, none_owns ts k.1 o.1 h.1)
  none_owns (locking os w ∷ ts) k o h = ground arith
  none_owns (unlocking os ∷ ts) k o h = ground arith
  none_owns (leaving q b os ∷ ts) k o h = ground arith

last_moves : (l : Locker) (ts : List Pc) → Inv l ts → All Ordered ts → LastWaiting ts → CanMove l ts
last_moves l ts i o (p, a, os, w, xs, ys, e, all) =
    let here =
      (All-middle (λ t. Points l.table (refs t)) xs ys (waiting p a os w)
        (subst (AllPoint l.table) e i.pointers)).0.0 in
    let unowned = none_owns l p a here (λ q h. i.injective p q a here h) ts i.pointers o all in
    let free : l.held a ≡ false = ground (arith, i.holders a) in
    (xs, ys, waiting p a os w, locking ((p, a) ∷ os) w, set_held a true l, e, acquire free)

-- However many threads lock whichever paths, in whichever order their steps come, no state is a
-- deadlock: all threads are idle, or one of them can make its next step. Work under the locks is
-- taken to end.
pub Reach-progress :
    (n : ℕ) (s : System) → Reach n s → All IsIdle s.threads ⊎ CanMove s.locker s.threads
Reach-progress n s r = elim (situation s.locker s.threads) [
  | inl m ↦ inr m
  | inr (inl h) ↦ inl h
  | inr (inr h) ↦ inr (last_moves s.locker s.threads (Reach-Inv n s r) (Reach-Ordered n s r) h)
]
