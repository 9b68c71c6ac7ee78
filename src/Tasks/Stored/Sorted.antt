-- ===== src/Tasks/Stored/Sorted.antt =====
-- The order of queryTasksByTaskListId of database/helpers.go, on the rows of a list.
use echolist_backend.Base.{
  ℕ, ◌+◌, ◌≤◌, Bool, true, false, none, some, List, [], ◌∷◌, ◌++◌, All, Bytes, str_eq, contains,
  str_eq_refl, str_eq_iff, ◌≡◌, refl, arith, All-append, Bool-cases, inl, inr,
}
use echolist_backend.Database.Types.{TaskColumns}
use echolist_backend.Database.Sql.Keys.{Unique}
use echolist_backend.Database.Sql.Sorting.{
  before, Ordered, before-untested, Ordered-untested-append, Ordered-append-untested,
}
use echolist_backend.Database.Helpers.{task_columns, task_le}
use echolist_backend.Tasks.Types.{SubTask, MainTask}
use echolist_backend.Tasks.Stored.{sub_rows, main_row, stored_rows}
use echolist_backend.Tasks.Convert.Attach.{main_ids}

abbrev pub is_main : TaskColumns → Bool
is_main r = elim r.task_list_id [ none ↦ false | some l ↦ true ]

abbrev pub is_below : Bytes → TaskColumns → Bool
is_below k r = elim r.parent_task_id [ none ↦ false | some p ↦ str_eq p k ]

-- A later main task of the same list.
sub_rows-not_main :
    (x : TaskColumns) (p : Bytes) (i : ℕ) (ss : List SubTask)
    → All (λ y. before task_le is_main x y ≡ true) (sub_rows p i ss)
sub_rows-not_main x p i [] = tt
sub_rows-not_main x p i (s ∷ ss) = (ground arith, sub_rows-not_main x p (i + 1) ss)

main_row-first :
    (l : Bytes) (i j : ℕ) (t : MainTask) (ts : List MainTask)
    → i ≤ j
    → All (λ y. before task_le is_main (main_row l i t) y ≡ true) (stored_rows l j ts)
unfolding task_le
main_row-first l i j t [] h = tt
main_row-first l i j t (u ∷ us) h = (
  ground (arith, str_eq_refl l),
  All-append _ (sub_rows u.id 0 u.sub_tasks) (stored_rows l (j + 1) us)
      (sub_rows-not_main (main_row l i t) u.id 0 u.sub_tasks)
      (main_row-first l i (j + 1) t us (omega arith)),
)

pub sub_rows-is_main :
    (p : Bytes) (i : ℕ) (ss : List SubTask) → All (λ r. is_main r ≡ false) (sub_rows p i ss)
sub_rows-is_main p i [] = tt
sub_rows-is_main p i (s ∷ ss) = (refl, sub_rows-is_main p (i + 1) ss)

pub stored_rows-main_Ordered :
    (l : Bytes) (i : ℕ) (ts : List MainTask) → Ordered task_le is_main (stored_rows l i ts)
stored_rows-main_Ordered l i [] = tt
stored_rows-main_Ordered l i (t ∷ ts) =
    let subs = sub_rows t.id 0 t.sub_tasks in
    let rest = stored_rows l (i + 1) ts in
    (
      All-append _ subs rest (sub_rows-not_main (main_row l i t) t.id 0 t.sub_tasks)
          (main_row-first l i (i + 1) t ts (omega arith)),
      Ordered-untested-append task_le is_main subs rest (sub_rows-is_main t.id 0 t.sub_tasks)
          (stored_rows-main_Ordered l (i + 1) ts),
    )

sub_row-first :
    (k p : Bytes) (i j : ℕ) (s : SubTask) (ss : List SubTask)
    → i ≤ j
    → All
        (λ y.
          before task_le
            (is_below k)
            (task_columns s.id s.description s.is_done none none none (some p) i)
            y
          ≡ true)
        (sub_rows p j ss)
unfolding task_le
sub_row-first k p i j s [] h = tt
sub_row-first k p i j s (u ∷ us) h =
    (ground (arith, str_eq_refl p), sub_row-first k p i (j + 1) s us (omega arith))

sub_rows-Ordered :
    (k p : Bytes) (i : ℕ) (ss : List SubTask) → Ordered task_le (is_below k) (sub_rows p i ss)
sub_rows-Ordered k p i [] = tt
sub_rows-Ordered k p i (s ∷ ss) =
    (sub_row-first k p i (i + 1) s ss (omega arith), sub_rows-Ordered k p (i + 1) ss)

pub sub_rows-is_below :
    (k p : Bytes) (i : ℕ) (ss : List SubTask) (b : Bool)
    → str_eq p k ≡ b
    → All (λ r. is_below k r ≡ b) (sub_rows p i ss)
sub_rows-is_below k p i [] b h = tt
sub_rows-is_below k p i (s ∷ ss) b h = (h, sub_rows-is_below k p (i + 1) ss b h)

-- No row is below a key that is no task's.
pub stored_rows-is_below :
    (k l : Bytes) (i : ℕ) (ts : List MainTask)
    → contains (main_ids ts) k ≡ false
    → All (λ r. is_below k r ≡ false) (stored_rows l i ts)
unfolding contains
stored_rows-is_below k l i [] h = tt
stored_rows-is_below k l i (t ∷ ts) h = (
  refl,
  All-append _ (sub_rows t.id 0 t.sub_tasks) (stored_rows l (i + 1) ts)
      (sub_rows-is_below k t.id 0 t.sub_tasks false (ground arith))
      (stored_rows-is_below k l (i + 1) ts (ground arith)),
)

pub stored_rows-below_Ordered :
    (k l : Bytes) (i : ℕ) (ts : List MainTask)
    → Unique (main_ids ts)
    → Ordered task_le (is_below k) (stored_rows l i ts)
stored_rows-below_Ordered k l i [] u = tt
stored_rows-below_Ordered k l i (t ∷ ts) u =
    let subs = sub_rows t.id 0 t.sub_tasks in
    let rest = stored_rows l (i + 1) ts in
    (
      before-untested task_le (is_below k) (main_row l i t) (subs ++ rest) refl,
      elim (Bool-cases (str_eq t.id k)) [
        | inl same ↦
            Ordered-append-untested task_le (is_below k) subs rest
              (sub_rows-Ordered k t.id 0 t.sub_tasks)
              (stored_rows-is_below k l (i + 1) ts (ground (arith, str_eq_iff t.id k, u.0)))
        | inr other ↦
            Ordered-untested-append task_le (is_below k) subs rest
              (sub_rows-is_below k t.id 0 t.sub_tasks false other)
              (stored_rows-below_Ordered k l (i + 1) ts u.1)
      ],
    )
