-- ===== src/Common/PathLock.antt =====
-- common/pathlock.go: Locker under threads that run LockMany and the unlock that it returns, in
-- any order. The code between locker.mutex.Lock and locker.mutex.Unlock is one step, since no
-- other thread can be between them; so are Lock and Unlock of an entry's own mutex. Lock(path) is
-- LockMany of that one path.
pub mod Counting
pub mod Invariant
pub mod Exclusion
pub mod Order
pub mod Progress
use echolist_backend.Base.{
  ℕ, zero, suc, ◌+◌, ◌-◌, Bool, true, false, Option, none, some, List, [], ◌∷◌, ◌++◌, ◌==◌,
  if◌then◌else◌, Bytes, str_eq, str_le, contains, ◌≡◌,
}

-- The entries that were made have the addresses below `next`; `table` is locker.locks, `waiters`
-- and `held` are the fields of the entry at an address.
pub record Locker : Type 0 where
  pub table : Bytes → Option ℕ
  pub waiters : ℕ → ℕ
  pub held : ℕ → Bool
  pub next : ℕ

-- The zero value.
abbrev pub new_locker : Locker
new_locker = record { table = λ p. none; waiters = λ a. 0; held = λ a. false; next = 0 }

abbrev pub at_path : {A : Type 0} → (Bytes → A) → Bytes → A → Bytes → A
at_path f p x q = if str_eq p q then x else f q

abbrev pub at_address : {A : Type 0} → (ℕ → A) → ℕ → A → ℕ → A
at_address f a x b = if a == b then x else f b

-- The entry of a path, a new one if there is none.
abbrev pub entry_of : Bytes → Option ℕ → Locker → ℕ × Locker
entry_of path (some a) l = (a, l)
entry_of path none l = (
  l.next,
  record l {
    table = at_path l.table path (some l.next);
    waiters = at_address l.waiters l.next 0;
    held = at_address l.held l.next false;
    next = l.next + 1;
  },
)

-- The first part of Lock: ent.waiters++ on the entry of the path.
unfoldable pub enter : Bytes → Locker → ℕ × Locker
enter path l =
    let (a, l') = entry_of path (l.table path) l in
    (a, record l' { waiters = at_address l'.waiters a (l'.waiters a + 1) })

-- ent.mutex.Lock() and ent.mutex.Unlock()
unfoldable pub set_held : ℕ → Bool → Locker → Locker
set_held a b l = record l { held = at_address l.held a b }

-- The last part of the unlock function: ent.waiters--, and the entry is dropped if that was the
-- last one.
unfoldable pub leave : Bytes → ℕ → Locker → Locker
leave path a l =
    let n = l.waiters a - 1 in
    record l {
      waiters = at_address l.waiters a n;
      table = if n == 0 then at_path l.table path none else l.table;
    }

-- The loop that drops repeated paths.
unfoldable pub unique_from : List Bytes → List Bytes → List Bytes
unfolding contains
unique_from seen [] = []
unique_from seen (p ∷ ps) =
    let again = unique_from seen ps in
    let new = unique_from (p ∷ seen) ps in if contains seen p then again else p ∷ new

-- sort.Strings, as an insertion sort
unfoldable pub insert_sorted : Bytes → List Bytes → List Bytes
unfolding str_le
insert_sorted p [] = p ∷ []
insert_sorted p (q ∷ qs) =
    let rest = insert_sorted p qs in if str_le p q then p ∷ q ∷ qs else q ∷ rest

unfoldable pub sort_strings : List Bytes → List Bytes
unfolding insert_sorted
sort_strings [] = []
sort_strings (p ∷ ps) = insert_sorted p (sort_strings ps)

-- The paths in the order in which LockMany locks them.
unfoldable pub lock_order : List Bytes → List Bytes
unfolding unique_from sort_strings
lock_order paths = sort_strings (unique_from [] paths)

-- A lock: a path and the address of its entry.
abbrev pub Locked : Type 0
Locked = Bytes × ℕ

-- Where a thread is. `owned` are its locks, the last one first, `todo` the paths still to be locked.
pub data Pc : Type 0 where
  idle : Pc
  locking : (owned : List Locked) (todo : List Bytes) → Pc
  waiting : (path : Bytes) (a : ℕ) (owned : List Locked) (todo : List Bytes) → Pc
  unlocking : (owned : List Locked) → Pc
  leaving : (path : Bytes) (a : ℕ) (owned : List Locked) → Pc

-- A step of a thread that has called LockMany. The call of the unlock function, `release`, ends
-- the work under the locks.
pub data Move (l : Locker) : Pc → Locker → Pc → Type 0 where
  enter_path :
      (p : Bytes) {o : List Locked} {t : List Bytes}
      → Move l (locking o (p ∷ t)) (enter p l).1 (waiting p (enter p l).0 o t)
  acquire :
      {p : Bytes} {a : ℕ} {o : List Locked} {t : List Bytes}
      → l.held a ≡ false
      → Move l (waiting p a o t) (set_held a true l) (locking ((p, a) ∷ o) t)
  release : {o : List Locked} → Move l (locking o []) l (unlocking o)
  unlock :
      {p : Bytes} {a : ℕ} {o : List Locked}
      → Move l (unlocking ((p, a) ∷ o)) (set_held a false l) (leaving p a o)
  leave_path :
      {p : Bytes} {a : ℕ} {o : List Locked} → Move l (leaving p a o) (leave p a l) (unlocking o)
  finish : Move l (unlocking []) l idle

pub record System : Type 0 where
  pub locker : Locker
  pub threads : List Pc

-- One thread moves, or one that is idle calls LockMany.
pub data Step : System → System → Type 0 where
  move :
      {l l' : Locker} {p p' : Pc} (before after : List Pc)
      → Move l p l' p'
      → Step
          (record { locker = l; threads = before ++ (p ∷ after) })
          (record { locker = l'; threads = before ++ (p' ∷ after) })
  call :
      {l : Locker} (before after : List Pc) (paths : List Bytes)
      → Step
          (record { locker = l; threads = before ++ (idle ∷ after) })
          (record { locker = l; threads = before ++ (locking [] (lock_order paths) ∷ after) })

-- As many threads as there are at most, all of them idle.
abbrev pub idle_threads : ℕ → List Pc
idle_threads zero = []
idle_threads (suc n) = idle ∷ idle_threads n

pub data Reach (n : ℕ) : System → Type 0 where
  start : Reach n (record { locker = new_locker; threads = idle_threads n })
  later : {s t : System} → Reach n s → Step s t → Reach n t
