-- ===== src/Tasks/Stored/ReadBack.antt =====
-- taskRowsToMainTasks of tasks/task_server.go, on the rows of Tasks.Stored in the order of
-- queryTasksByTaskListId.
use mathlib.Core.List.{append-nil}
use echolist_backend.Base.{
  ℕ, ◌+◌, Bool, true, false, List, [], ◌∷◌, ◌++◌, map, select, All, Bytes, str_eq_refl, str_eq_iff,
  contains, ◌≡◌, refl, ap, ◌∙◌, arith, select-append,
}
use echolist_backend.Database.Types.{TaskRow}
use echolist_backend.Database.Sql.{order_by}
use echolist_backend.Database.Sql.Keys.{Unique}
use echolist_backend.Database.Sql.Sorting.{select-order_by}
use echolist_backend.Database.Helpers.{scan_task, task_le}
use echolist_backend.Tasks.Types.{SubTask, MainTask}
use echolist_backend.Tasks.Server.{non_empty}
use echolist_backend.Tasks.Convert.{deref, main_task_of, sub_task_of, task_rows_to_main_tasks}
use echolist_backend.Tasks.Convert.Attach.{
  main_ids, row_is_main, row_is_below, gather, task_rows_to_main_tasks-gather,
}
use echolist_backend.Tasks.Stored.{sub_rows, main_row, stored_rows}
use echolist_backend.Tasks.Stored.Selected.{main_rows, select_nothing, select_whole}
use echolist_backend.Tasks.Stored.Sorted.{
  is_main, is_below, stored_rows-main_Ordered, stored_rows-below_Ordered, stored_rows-is_below,
  sub_rows-is_below, sub_rows-is_main,
}

select-map :
    {A B : Type 0} (q : B → Bool) (f : A → B) (xs : List A)
    → select q (map f xs) ≡ map f (select (λ x. q (f x)) xs)
select-map q f [] = refl
select-map q f (x ∷ xs) = ground (arith, select-map q f xs)

pub stored_rows-mains :
    (l : Bytes) (i : ℕ) (ts : List MainTask)
    → select is_main (stored_rows l i ts) ≡ main_rows l i ts
stored_rows-mains l i [] = refl
stored_rows-mains l i (t ∷ ts) =
    let subs = sub_rows t.id 0 t.sub_tasks in
    ap (λ rows. main_row l i t ∷ rows)
      (select-append is_main subs (stored_rows l (i + 1) ts)
        ∙ ap (λ rows. rows ++ select is_main (stored_rows l (i + 1) ts))
            (select_nothing is_main subs (sub_rows-is_main t.id 0 t.sub_tasks))
        ∙ stored_rows-mains l (i + 1) ts)

non_empty-deref : (s : Bytes) → deref (non_empty s) ≡ s
non_empty-deref [] = refl
non_empty-deref (c ∷ s) = refl

abbrev bare : MainTask → MainTask
bare t = record t { sub_tasks = [] }

main_row-read :
    (l : Bytes) (i : ℕ) (t : MainTask) → main_task_of (scan_task (main_row l i t)) ≡ bare t
main_row-read l i t = ground (arith, non_empty-deref t.due_date, non_empty-deref t.recurrence)

main_rows-read :
    (l : Bytes) (i : ℕ) (ts : List MainTask)
    → map main_task_of (map scan_task (main_rows l i ts)) ≡ map bare ts
main_rows-read l i [] = refl
main_rows-read l i (t ∷ ts) =
    ap (λ u. u ∷ map main_task_of (map scan_task (main_rows l (i + 1) ts))) (main_row-read l i t)
    ∙ ap (λ us. bare t ∷ us) (main_rows-read l (i + 1) ts)

sub_rows-read :
    (p : Bytes) (i : ℕ) (ss : List SubTask) → map sub_task_of (map scan_task (sub_rows p i ss)) ≡ ss
sub_rows-read p i [] = refl
sub_rows-read p i (s ∷ ss) = ground (arith, sub_rows-read p (i + 1) ss)

-- The rows below a task are those of its subtasks.
abbrev OwnRows : Bytes → ℕ → List MainTask → MainTask → Type 0
OwnRows l i ts t = select (is_below t.id) (stored_rows l i ts) ≡ sub_rows t.id 0 t.sub_tasks

stored_rows-later_OwnRows :
    (l : Bytes) (i : ℕ) (u : MainTask) (us ts : List MainTask)
    → contains (main_ids ts) u.id ≡ false
    → All (OwnRows l (i + 1) us) ts
    → All (OwnRows l i (u ∷ us)) ts
unfolding contains
stored_rows-later_OwnRows l i u us [] h g = tt
stored_rows-later_OwnRows l i u us (t ∷ ts) h g = (
  ground (
    arith,
    g.0,
    str_eq_iff t.id u.id,
    str_eq_iff u.id t.id,
    select-append (is_below t.id) (sub_rows u.id 0 u.sub_tasks) (stored_rows l (i + 1) us),
    select_nothing (is_below t.id) (sub_rows u.id 0 u.sub_tasks) (
        sub_rows-is_below t.id u.id 0 u.sub_tasks false
          (ground (arith, str_eq_iff t.id u.id, str_eq_iff u.id t.id))),
  ),
  stored_rows-later_OwnRows l i u us ts (ground arith) g.1,
)

stored_rows-OwnRows :
    (l : Bytes) (i : ℕ) (ts : List MainTask) → Unique (main_ids ts) → All (OwnRows l i ts) ts
stored_rows-OwnRows l i [] u = tt
stored_rows-OwnRows l i (t ∷ ts) u =
    let subs = sub_rows t.id 0 t.sub_tasks in
    (
      select-append (is_below t.id) subs (stored_rows l (i + 1) ts)
          ∙ ap (λ rows. rows ++ select (is_below t.id) (stored_rows l (i + 1) ts))
              (select_whole (is_below t.id) subs
                (sub_rows-is_below t.id t.id 0 t.sub_tasks true (str_eq_refl t.id)))
          ∙ ap (λ rows. subs ++ rows)
              (select_nothing (is_below t.id) (stored_rows l (i + 1) ts)
                (stored_rows-is_below t.id l (i + 1) ts u.0))
          ∙ append-nil subs,
      stored_rows-later_OwnRows l i t ts ts u.0 (stored_rows-OwnRows l (i + 1) ts u.1),
    )

bare-ids : (ts : List MainTask) → main_ids (map bare ts) ≡ main_ids ts
bare-ids [] = refl
bare-ids (t ∷ ts) = ap (λ ids. t.id ∷ ids) (bare-ids ts)

module _ (l : Bytes) (ts : List MainTask) where
  -- The rows of a query for the list.
  abbrev pub queried : List TaskRow
  queried = map scan_task (order_by task_le (stored_rows l 0 ts))

  queried-mains : map main_task_of (select row_is_main queried) ≡ map bare ts
  queried-mains =
      ap (map main_task_of) (
        select-map row_is_main scan_task (order_by task_le (stored_rows l 0 ts))
        ∙ ap (map scan_task) (
            select-order_by task_le is_main (stored_rows l 0 ts) (stored_rows-main_Ordered l 0 ts)
            ∙ stored_rows-mains l 0 ts))
      ∙ main_rows-read l 0 ts

  queried-below :
      (t : MainTask)
      → Unique (main_ids ts)
      → OwnRows l 0 ts t
      → map sub_task_of (select (row_is_below t.id) queried) ≡ t.sub_tasks
  queried-below t u own =
      ap (map sub_task_of) (
        select-map (row_is_below t.id) scan_task (order_by task_le (stored_rows l 0 ts))
        ∙ ap (map scan_task) (
            select-order_by task_le (is_below t.id) (stored_rows l 0 ts)
              (stored_rows-below_Ordered t.id l 0 ts u)
            ∙ own))
      ∙ sub_rows-read t.id 0 t.sub_tasks

  gather-bare :
      (us : List MainTask)
      → Unique (main_ids ts)
      → All (OwnRows l 0 ts) us
      → map (gather queried) (map bare us) ≡ us
  gather-bare [] u h = refl
  gather-bare (t ∷ us) u h =
      ap (λ ss. record t { sub_tasks = ss } ∷ map (gather queried) (map bare us))
        (queried-below t u h.0)
      ∙ ap (λ vs. t ∷ vs) (gather-bare us u h.1)

  -- The tasks come back as they were written.
  pub queried-read : Unique (main_ids ts) → task_rows_to_main_tasks queried ≡ ts
  queried-read u =
      task_rows_to_main_tasks-gather queried (rw (queried-mains, bare-ids ts) u)
      ∙ ap (map (gather queried)) queried-mains
      ∙ gather-bare ts u (stored_rows-OwnRows l 0 ts u)
