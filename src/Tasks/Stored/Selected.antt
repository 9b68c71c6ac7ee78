-- ===== src/Tasks/Stored/Selected.antt =====
-- Which rows queryTasksByTaskListId of database/helpers.go selects for a list that was written.
use mathlib.Core.List.{map-append}
use echolist_backend.Base.{
  ℕ, ◌+◌, Bool, true, false, ◌||◌, Option, none, some, List, [], ◌∷◌, ◌++◌, select, All, Bytes,
  contains, contains-append, str_eq_refl, str_eq_iff, ◌≡◌, refl, ap, ◌∙◌, arith, All-map,
  All-append, select-append,
}
use echolist_backend.Database.Types.{TaskColumns}
use echolist_backend.Database.Sql.{task_ids, refers, satisfied}
use echolist_backend.Database.Sql.Keys.{Unique}
use echolist_backend.Database.Helpers.{in_list, of_task_list}
use echolist_backend.Tasks.Types.{SubTask, MainTask}
use echolist_backend.Tasks.Convert.Attach.{main_ids}
use echolist_backend.Tasks.Stored.{sub_rows, main_row, stored_rows}

module _ {ℓ} {A : Type ℓ} (p : A → Bool) where
  pub select_nothing : (xs : List A) → All (λ x. p x ≡ false) xs → select p xs ≡ []
  select_nothing [] h = refl
  select_nothing (x ∷ xs) h = ground (arith, h.0, select_nothing xs h.1)

  pub select_whole : (xs : List A) → All (λ x. p x ≡ true) xs → select p xs ≡ xs
  select_whole [] h = refl
  select_whole (x ∷ xs) h = ground (arith, h.0, select_whole xs h.1)

abbrev pub main_rows : Bytes → ℕ → List MainTask → List TaskColumns
main_rows l i [] = []
main_rows l i (t ∷ ts) = main_row l i t ∷ main_rows l (i + 1) ts

sub_rows-in_list :
    (l p : Bytes) (i : ℕ) (ss : List SubTask) → All (λ r. in_list l r ≡ false) (sub_rows p i ss)
sub_rows-in_list l p i [] = tt
sub_rows-in_list l p i (s ∷ ss) = (refl, sub_rows-in_list l p (i + 1) ss)

stored_rows-in_list :
    (l : Bytes) (i : ℕ) (ts : List MainTask)
    → select (in_list l) (stored_rows l i ts) ≡ main_rows l i ts
unfolding contains
stored_rows-in_list l i [] = refl
stored_rows-in_list l i (t ∷ ts) = ground (
  arith,
  str_eq_refl l,
  stored_rows-in_list l (i + 1) ts,
  select_nothing (in_list l) (sub_rows t.id 0 t.sub_tasks) (sub_rows-in_list l t.id 0 t.sub_tasks),
  select-append (in_list l) (sub_rows t.id 0 t.sub_tasks) (stored_rows l (i + 1) ts),
)

pub main_rows-ids :
    (l : Bytes) (i : ℕ) (ts : List MainTask) → task_ids (main_rows l i ts) ≡ main_ids ts
main_rows-ids l i [] = refl
main_rows-ids l i (t ∷ ts) = ap (λ ids. t.id ∷ ids) (main_rows-ids l (i + 1) ts)

-- Each stored row is a task of the list, or below one.
abbrev belongs : Bytes → List Bytes → TaskColumns → Bool
belongs l ids r = in_list l r || refers ids r.parent_task_id

sub_rows-belongs :
    (l p : Bytes) (ids : List Bytes) (i : ℕ) (ss : List SubTask)
    → contains ids p ≡ true
    → All (λ r. belongs l ids r ≡ true) (sub_rows p i ss)
sub_rows-belongs l p ids i [] h = tt
sub_rows-belongs l p ids i (s ∷ ss) h = (ground arith, sub_rows-belongs l p ids (i + 1) ss h)

stored_rows-belongs :
    (l : Bytes) (ids : List Bytes) (i : ℕ) (ts : List MainTask)
    → All (λ (t : MainTask). contains ids t.id ≡ true) ts
    → All (λ r. belongs l ids r ≡ true) (stored_rows l i ts)
unfolding contains
stored_rows-belongs l ids i [] h = tt
stored_rows-belongs l ids i (t ∷ ts) h = (
  ground (arith, str_eq_refl l),
  All-append _ (sub_rows t.id 0 t.sub_tasks) (stored_rows l (i + 1) ts)
      (sub_rows-belongs l t.id ids 0 t.sub_tasks h.0) (stored_rows-belongs l ids (i + 1) ts h.1),
)

contains-weaken :
    (k : Bytes) (ids : List Bytes) (ts : List MainTask)
    → All (λ (t : MainTask). contains ids t.id ≡ true) ts
    → All (λ (t : MainTask). contains (k ∷ ids) t.id ≡ true) ts
unfolding contains
contains-weaken k ids [] h = tt
contains-weaken k ids (t ∷ ts) h = (ground (arith, h.0), contains-weaken k ids ts h.1)

main_ids-contain :
    (ts : List MainTask) → All (λ (t : MainTask). contains (main_ids ts) t.id ≡ true) ts
unfolding contains
main_ids-contain [] = tt
main_ids-contain (t ∷ ts) =
    (ground (arith, str_eq_refl t.id), contains-weaken t.id (main_ids ts) ts (main_ids-contain ts))

-- Keys of one part of a table are no keys of the other.
pub Unique-disjoint :
    (xs ys : List Bytes) (k : Bytes)
    → Unique (xs ++ ys)
    → contains xs k ≡ true
    → contains ys k ≡ false
unfolding contains
Unique-disjoint [] ys k u h = ground arith
Unique-disjoint (x ∷ xs) ys k u h =
    ground (arith, contains-append xs ys x, str_eq_iff x k, Unique-disjoint xs ys k u.1)

main_ids-stored :
    (l : Bytes) (i : ℕ) (ts : List MainTask) (k : Bytes)
    → contains (main_ids ts) k ≡ true
    → contains (task_ids (stored_rows l i ts)) k ≡ true
unfolding contains
main_ids-stored l i [] k h = h
main_ids-stored l i (t ∷ ts) k h =
    let subs = sub_rows t.id 0 t.sub_tasks in
    let rest = stored_rows l (i + 1) ts in
    let ids = map-append (λ (r : TaskColumns). r.id) subs rest in
    ground (
      arith,
      ids,
      contains-append (task_ids subs) (task_ids rest) k,
      main_ids-stored l (i + 1) ts k,
    )

not_in_list :
    (l : Bytes) (lists : List Bytes) (o : Option Bytes)
    → contains lists l ≡ false
    → satisfied lists o ≡ true
    → refers (l ∷ []) o ≡ false
unfolding contains
not_in_list l lists none fresh known = refl
not_in_list l lists (some k) fresh known = ground (arith, str_eq_iff l k)

not_below :
    (keys ids : List Bytes) (o : Option Bytes)
    → ((k : Bytes) → contains ids k ≡ true → contains keys k ≡ false)
    → satisfied keys o ≡ true
    → refers ids o ≡ false
not_below keys ids none apart known = refl
not_below keys ids (some k) apart known = ground (arith, apart k)

-- Rows that were there before do not belong to the list.
pub old_rows-in_list :
    (l : Bytes) (lists : List Bytes) (old : List TaskColumns)
    → contains lists l ≡ false
    → All (λ r. satisfied lists r.task_list_id ≡ true) old
    → All (λ r. in_list l r ≡ false) old
old_rows-in_list l lists old fresh h =
    All-map old (λ r known. not_in_list l lists r.task_list_id fresh known) h

old_rows-belongs :
    (l : Bytes) (keys ids : List Bytes) (old : List TaskColumns)
    → ((k : Bytes) → contains ids k ≡ true → contains keys k ≡ false)
    → All (λ r. in_list l r ≡ false) old
    → All (λ r. satisfied keys r.parent_task_id ≡ true) old
    → All (λ r. belongs l ids r ≡ false) old
old_rows-belongs l keys ids [] apart hl hp = tt
old_rows-belongs l keys ids (r ∷ old) apart hl hp = (
  ground (arith, hl.0, not_below keys ids r.parent_task_id apart hp.0),
  old_rows-belongs l keys ids old apart hl.1 hp.1,
)

apart_from_old :
    (l : Bytes) (old : List Bytes) (ts : List MainTask)
    → Unique (old ++ task_ids (stored_rows l 0 ts))
    → (k : Bytes) → contains (main_ids ts) k ≡ true
    → contains old k ≡ false
apart_from_old l old ts u k h =
    ground
      (arith, Unique-disjoint old (task_ids (stored_rows l 0 ts)) k u, main_ids-stored l 0 ts k h)

-- Among rows of which none is in the list.
pub stored_rows-of_task_list :
    (l : Bytes) (old : List TaskColumns) (ts : List MainTask)
    → All (λ r. in_list l r ≡ false) old
    → All (λ r. satisfied (task_ids old) r.parent_task_id ≡ true) old
    → Unique (task_ids old ++ task_ids (stored_rows l 0 ts))
    → select (of_task_list l (old ++ stored_rows l 0 ts)) (old ++ stored_rows l 0 ts)
      ≡ stored_rows l 0 ts
unfolding of_task_list
stored_rows-of_task_list l old ts hl hp u =
    let new = stored_rows l 0 ts in
    let mains : select (in_list l) (old ++ new) ≡ main_rows l 0 ts =
      select-append (in_list l) old new
      ∙ ap (λ xs. xs ++ select (in_list l) new) (select_nothing (in_list l) old hl)
      ∙ stored_rows-in_list l 0 ts in
    let ids : task_ids (select (in_list l) (old ++ new)) ≡ main_ids ts =
      ap task_ids mains ∙ main_rows-ids l 0 ts in
    let test : of_task_list l (old ++ new) ≡ belongs l (main_ids ts) =
      ap (λ ks r. in_list l r || refers ks r.parent_task_id) ids in
    ap (λ p. select p (old ++ new)) test
    ∙ select-append (belongs l (main_ids ts)) old new
    ∙ ap (λ xs. xs ++ select (belongs l (main_ids ts)) new)
        (select_nothing (belongs l (main_ids ts)) old (
          old_rows-belongs l (task_ids old) (main_ids ts) old (apart_from_old l (task_ids old) ts u)
            hl hp))
    ∙ select_whole (belongs l (main_ids ts)) new
        (stored_rows-belongs l (main_ids ts) 0 ts (main_ids-contain ts))
