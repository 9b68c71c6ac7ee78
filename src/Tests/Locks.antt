-- ===== src/Tests/Locks.antt =====
-- A run of two threads on the Locker, and its theorems at that run.
use echolist_backend.Base.{
  ◌≤◌, true, [], ◌∷◌, All, Bytes, bytes, str_eq, contains, ltb, ◌⊎◌, ◌≡◌, refl,
}
use echolist_backend.Common.PathLock.{
  idle, locking, waiting, System, Reach, start, later, call, move, enter_path, acquire, enter,
  set_held, new_locker, lock_order,
}
use echolist_backend.Common.PathLock.Counting.{total}
use echolist_backend.Common.PathLock.Exclusion.{
  holding, using, has_entry, Reach-exclusive, Reach-entries,
}
use echolist_backend.Common.PathLock.Progress.{IsIdle, CanMove, Reach-progress}

abbrev path_a : Bytes
path_a = bytes "/data/a.md"

abbrev path_b : Bytes
path_b = bytes "/data/b.md"

-- Each path once, in order.
lock_order_example : lock_order (path_b ∷ path_a ∷ path_b ∷ []) ≡ path_a ∷ path_b ∷ []
unfolding lock_order contains str_eq
lock_order_example = refl

-- The first thread has called LockMany and waits for its first path; it then holds that path.
abbrev one_waits : System
one_waits = record {
  locker = (enter path_a new_locker).1;
  threads = waiting path_a 0 [] (path_b ∷ []) ∷ idle ∷ [];
}

abbrev one_holds : System
one_holds = record {
  locker = set_held 0 true one_waits.locker;
  threads = locking ((path_a, 0) ∷ []) (path_b ∷ []) ∷ idle ∷ [];
}

abbrev both_in : System
both_in = record {
  locker = (enter path_a one_holds.locker).1;
  threads = locking ((path_a, 0) ∷ []) (path_b ∷ []) ∷ waiting path_a 0 [] [] ∷ [];
}

one_waits-Reach : Reach 2 one_waits
unfolding lock_order contains enter str_eq
one_waits-Reach =
    later (later start (call [] (idle ∷ []) (path_b ∷ path_a ∷ path_b ∷ [])))
      (move [] (idle ∷ []) (enter_path path_a))

one_holds-Reach : Reach 2 one_holds
unfolding enter
one_holds-Reach = later one_waits-Reach (move [] (idle ∷ []) (acquire refl))

-- The second thread wants the same path.
both_in-Reach : Reach 2 both_in
unfolding lock_order contains enter set_held str_eq
both_in-Reach =
    later
      (later one_holds-Reach
        (call (locking ((path_a, 0) ∷ []) (path_b ∷ []) ∷ []) [] (path_a ∷ [])))
      (move (locking ((path_a, 0) ∷ []) (path_b ∷ []) ∷ []) [] (enter_path path_a))

Reach-exclusive_example : total (holding path_a) both_in.threads ≤ 1
Reach-exclusive_example = Reach-exclusive 2 both_in path_a both_in-Reach

Reach-entries_example :
    has_entry (both_in.locker.table path_b) ≡ ltb 0 (total (using path_b) both_in.threads)
Reach-entries_example = Reach-entries 2 both_in path_b both_in-Reach

Reach-progress_example : All IsIdle both_in.threads ⊎ CanMove both_in.locker both_in.threads
Reach-progress_example = Reach-progress 2 both_in both_in-Reach
