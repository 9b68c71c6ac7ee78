-- ===== src/Common/PathLock/Invariant.antt =====
-- What stays true of the Locker of common/pathlock.go and the threads that use it.
use echolist_backend.Base.{
  ℕ, ◌+◌, ◌-◌, ◌≤◌, ◌<◌, Bool, true, false, Option, none, some, List, [], ◌∷◌, ◌++◌, ◌==◌,
  if◌then◌else◌, All, All-map, Bytes, str_eq_iff, str_eq_refl, ◌≡◌, refl, sym, ap, ◌∙◌, arith,
}
use mathlib.Core.Path.{subst}
use echolist_backend.Common.PathLock.{
  Locker, Locked, Pc, idle, locking, waiting, unlocking, leaving, at_path, at_address, entry_of,
  enter, set_held, leave, Move, enter_path, acquire, release, unlock, leave_path, finish,
}
use echolist_backend.Common.PathLock.Counting.{
  refs, owned_by, count, total, waiting_for, owning, total-middle, total-owning-le, All-middle,
  middle-All, Points, Points-added, Points-dropped,
}

abbrev pub bit : Bool → ℕ
bit true = 1
bit false = 0

-- Every lock of a thread has the entry that the table has for its path.
abbrev pub AllPoint : (Bytes → Option ℕ) → List Pc → Type 0
AllPoint table ts = All (λ t. Points table (refs t)) ts

pub record Inv (l : Locker) (ts : List Pc) : Type 0 where
  pub pointers : AllPoint l.table ts
  pub counted : (a : ℕ) → l.waiters a ≡ total (waiting_for a) ts
  pub holders : (a : ℕ) → total (owning a) ts ≡ bit (l.held a)
  pub used : (p : Bytes) (a : ℕ) → l.table p ≡ some a → 0 < l.waiters a
  pub bounded : (p : Bytes) (a : ℕ) → l.table p ≡ some a → a < l.next
  pub injective : (p q : Bytes) (a : ℕ) → l.table p ≡ some a → l.table q ≡ some a → p ≡ q
  pub fresh : (a : ℕ) → l.next ≤ a → l.waiters a ≡ 0

-- The order of the threads does not matter.
pub to_front :
    (l : Locker) (xs ys : List Pc) (t : Pc) → Inv l (xs ++ (t ∷ ys)) → Inv l (t ∷ (xs ++ ys))
to_front l xs ys t i = record {
  pointers = All-middle (λ t. Points l.table (refs t)) xs ys t i.pointers;
  counted = λ a. i.counted a ∙ total-middle (waiting_for a) xs ys t;
  holders = λ a. sym (total-middle (owning a) xs ys t) ∙ i.holders a;
  used = i.used;
  bounded = i.bounded;
  injective = i.injective;
  fresh = i.fresh;
}

pub from_front :
    (l : Locker) (xs ys : List Pc) (t : Pc) → Inv l (t ∷ (xs ++ ys)) → Inv l (xs ++ (t ∷ ys))
from_front l xs ys t i = record {
  pointers = middle-All (λ t. Points l.table (refs t)) xs ys t i.pointers.0 i.pointers.1;
  counted = λ a. i.counted a ∙ sym (total-middle (waiting_for a) xs ys t);
  holders = λ a. total-middle (owning a) xs ys t ∙ i.holders a;
  used = i.used;
  bounded = i.bounded;
  injective = i.injective;
  fresh = i.fresh;
}

-- A thread that keeps its locks leaves the invariant alone.
pub same_locks :
    (l : Locker) (t t' : Pc) (ts : List Pc)
    → refs t ≡ refs t'
    → owned_by t ≡ owned_by t'
    → Inv l (t ∷ ts)
    → Inv l (t' ∷ ts)
same_locks l t t' ts r o i = record {
  pointers = (subst (Points l.table) r i.pointers.0, i.pointers.1);
  counted = λ a. i.counted a ∙ ap (λ x. count a x + total (waiting_for a) ts) r;
  holders = λ a. ap (λ x. count a x + total (owning a) ts) (sym o) ∙ i.holders a;
  used = i.used;
  bounded = i.bounded;
  injective = i.injective;
  fresh = i.fresh;
}

-- ent.mutex.Lock()
acquire-Inv :
    (l : Locker) (p : Bytes) (a : ℕ) (o : List Locked) (t : List Bytes) (ts : List Pc)
    → l.held a ≡ false
    → Inv l (waiting p a o t ∷ ts)
    → Inv (set_held a true l) (locking ((p, a) ∷ o) t ∷ ts)
unfolding set_held
acquire-Inv l p a o t ts free i = record {
  pointers = i.pointers;
  counted = i.counted;
  holders = λ b. ground (arith, i.holders a, i.holders b);
  used = i.used;
  bounded = i.bounded;
  injective = i.injective;
  fresh = i.fresh;
}

-- ent.mutex.Unlock()
unlock-Inv :
    (l : Locker) (p : Bytes) (a : ℕ) (o : List Locked) (ts : List Pc)
    → Inv l (unlocking ((p, a) ∷ o) ∷ ts)
    → Inv (set_held a false l) (leaving p a o ∷ ts)
unfolding set_held
unlock-Inv l p a o ts i = record {
  pointers = i.pointers;
  counted = i.counted;
  holders = λ b. ground (arith, i.holders a, i.holders b);
  used = i.used;
  bounded = i.bounded;
  injective = i.injective;
  fresh = i.fresh;
}

-- Lock on a path that has an entry
enter_old :
    (l : Locker) (p : Bytes) (a : ℕ) (o : List Locked) (t : List Bytes) (ts : List Pc)
    → l.table p ≡ some a
    → Inv l (locking o (p ∷ t) ∷ ts)
    → Inv (record l { waiters = at_address l.waiters a (l.waiters a + 1) }) (waiting p a o t ∷ ts)
enter_old l p a o t ts h i = record {
  pointers = ((h, i.pointers.0), i.pointers.1);
  counted = λ b. ground (arith, i.counted b, i.counted a);
  holders = i.holders;
  used = λ q b g. ground (arith, i.used q b g);
  bounded = i.bounded;
  injective = i.injective;
  fresh = λ b g. ground (arith, i.fresh b g, i.bounded p a h);
}

AllPoint-added :
    (table : Bytes → Option ℕ) (p : Bytes) (a : ℕ) (ts : List Pc)
    → table p ≡ none
    → AllPoint table ts
    → AllPoint (at_path table p (some a)) ts
AllPoint-added table p a ts h g = All-map ts (λ t x. Points-added table p a (refs t) h x) g

AllPoint-dropped :
    (table : Bytes → Option ℕ) (p : Bytes) (a : ℕ) (ts : List Pc)
    → table p ≡ some a
    → total (waiting_for a) ts ≡ 0
    → AllPoint table ts
    → AllPoint (at_path table p none) ts
AllPoint-dropped table p a [] h n g = tt
AllPoint-dropped table p a (t ∷ ts) h n g = (
  Points-dropped table p a (refs t) h (omega (arith, n)) g.0,
  AllPoint-dropped table p a ts h (omega (arith, n)) g.1,
)

-- Lock on a path without an entry
enter_new :
    (l : Locker) (p : Bytes) (o : List Locked) (t : List Bytes) (ts : List Pc)
    → l.table p ≡ none
    → Inv l (locking o (p ∷ t) ∷ ts)
    → Inv
        (record {
          table = at_path l.table p (some l.next);
          waiters =
              at_address
                (at_address l.waiters l.next 0)
                l.next
                (at_address l.waiters l.next 0 l.next + 1);
          held = at_address l.held l.next false;
          next = l.next + 1;
        })
        (waiting p l.next o t ∷ ts)
enter_new l p o t ts h i = record {
  pointers = (
    (ground (arith, str_eq_refl p), Points-added l.table p l.next o h i.pointers.0),
    AllPoint-added l.table p l.next ts h i.pointers.1,
  );
  counted = λ b. ground (arith, i.counted b, i.fresh l.next);
  holders = λ b. ground (
    arith,
    i.holders b,
    i.counted l.next,
    i.fresh l.next,
    total-owning-le l.next (locking o (p ∷ t) ∷ ts),
  );
  used = λ q b g. ground (arith, i.used q b, i.bounded q b);
  bounded = λ q b g. ground (arith, i.bounded q b);
  injective = λ q r b g g'.
      ground
        (arith, i.injective q r b, i.bounded q b, i.bounded r b, str_eq_iff p q, str_eq_iff p r);
  fresh = λ b g. ground (arith, i.fresh b);
}

-- the end of the unlock function, when others still use the entry
leave_used :
    (l : Locker) (p : Bytes) (a : ℕ) (o : List Locked) (ts : List Pc)
    → Inv l (leaving p a o ∷ ts)
    → l.waiters a - 1 == 0 ≡ false
    → Inv (record l { waiters = at_address l.waiters a (l.waiters a - 1) }) (unlocking o ∷ ts)
leave_used l p a o ts i n = record {
  pointers = (i.pointers.0.1, i.pointers.1);
  counted = λ b. ground (arith, i.counted b, i.counted a);
  holders = i.holders;
  used = λ q b g. ground (arith, i.used q b g);
  bounded = i.bounded;
  injective = i.injective;
  fresh = λ b g. ground (arith, i.fresh b g, i.bounded p a i.pointers.0.0);
}

-- and when nobody does
leave_unused :
    (l : Locker) (p : Bytes) (a : ℕ) (o : List Locked) (ts : List Pc)
    → Inv l (leaving p a o ∷ ts)
    → l.waiters a - 1 == 0 ≡ true
    → Inv
        (record l {
          waiters = at_address l.waiters a (l.waiters a - 1);
          table = at_path l.table p none;
        })
        (unlocking o ∷ ts)
leave_unused l p a o ts i n =
    let here = i.pointers.0.0 in
    let left : count a o + total (waiting_for a) ts ≡ 0 = ground (arith, i.counted a) in
    record {
      pointers = (
        Points-dropped l.table p a o here (omega (arith, left)) i.pointers.0.1,
        AllPoint-dropped l.table p a ts here (omega (arith, left)) i.pointers.1,
      );
      counted = λ b. ground (arith, i.counted b, i.counted a);
      holders = i.holders;
      used = λ q b g. ground (arith, i.used q b, i.injective p q a here, str_eq_iff p q);
      bounded = λ q b g. ground (arith, i.bounded q b);
      injective = λ q r b g g'. ground (arith, i.injective q r b);
      fresh = λ b g. ground (arith, i.fresh b g, i.bounded p a here);
    }

-- Both cases of Lock, and of the end of the unlock function.
entered :
    (l : Locker) (p : Bytes) (o : List Locked) (t : List Bytes) (ts : List Pc) (e : Option ℕ)
    → l.table p ≡ e
    → Inv l (locking o (p ∷ t) ∷ ts)
    → (let (a, l') = entry_of p e l in
        Inv
          (record l' { waiters = at_address l'.waiters a (l'.waiters a + 1) })
          (waiting p a o t ∷ ts))
entered l p o t ts (some a) h i = enter_old l p a o t ts h i
entered l p o t ts none h i = enter_new l p o t ts h i

left :
    (l : Locker) (p : Bytes) (a : ℕ) (o : List Locked) (ts : List Pc) (b : Bool)
    → l.waiters a - 1 == 0 ≡ b
    → Inv l (leaving p a o ∷ ts)
    → Inv
        (record l {
          waiters = at_address l.waiters a (l.waiters a - 1);
          table = if b then at_path l.table p none else l.table;
        })
        (unlocking o ∷ ts)
left l p a o ts true h i = leave_unused l p a o ts i h
left l p a o ts false h i = leave_used l p a o ts i h

pub moved-Inv :
    (l l' : Locker) (t t' : Pc) (ts : List Pc) → Move l t l' t' → Inv l (t ∷ ts) → Inv l' (t' ∷ ts)
unfolding enter leave
moved-Inv l _ _ _ ts (enter_path p {o = o} {t = t}) i = entered l p o t ts (l.table p) refl i
moved-Inv l _ _ _ ts (acquire {p = p} {a = a} {o = o} {t = t} free) i =
    acquire-Inv l p a o t ts free i
moved-Inv l _ _ _ ts (release {o = o}) i = same_locks l (locking o []) (unlocking o) ts refl refl i
moved-Inv l _ _ _ ts (unlock {p = p} {a = a} {o = o}) i = unlock-Inv l p a o ts i
moved-Inv l _ _ _ ts (leave_path {p = p} {a = a} {o = o}) i =
    left l p a o ts (l.waiters a - 1 == 0) refl i
moved-Inv l _ _ _ ts finish i = same_locks l (unlocking []) idle ts refl refl i
