-- ===== src/Database/Sql/Cascade.antt =====
-- What ON DELETE CASCADE of database/schema.go leaves of the table tasks.
use echolist_backend.Base.{
  ℕ, zero, suc, ◌≤◌, ◌<◌, Bool, true, ◌||◌, not, Option, List, [], ◌∷◌, select, All, length, Bytes,
  contains, ◌≡◌, refl, ◌⊎◌, arith, inl, inr, All-select, All-map, All-zip, select-All,
  length-select-le,
}
use echolist_backend.Database.Types.{TaskColumns}
use echolist_backend.Database.Sql.{task_ids, refers, satisfied, cascade, delete_tasks}
use echolist_backend.Database.Sql.Keys.{Unique, Unique-select, satisfied-select-not}

-- A parent that is here, or is among the deleted.
abbrev parent_known : List Bytes → List TaskColumns → TaskColumns → Bool
parent_known gone rows r =
    satisfied (task_ids rows) r.parent_task_id || refers gone r.parent_task_id

abbrev pub ParentsPresent : List TaskColumns → Type 0
ParentsPresent rows = All (λ r. satisfied (task_ids rows) r.parent_task_id ≡ true) rows

abbrev children : List Bytes → List TaskColumns → List TaskColumns
children gone rows = select (λ r. refers gone r.parent_task_id) rows

abbrev others : List Bytes → List TaskColumns → List TaskColumns
others gone rows = select (λ r. not (refers gone r.parent_task_id)) rows

module _ {κ} (P : TaskColumns → Type κ) where
  pub All-cascade :
      (n : ℕ) (gone : List Bytes) (rows : List TaskColumns)
      → All P rows
      → All P (cascade n gone rows)
  unfolding cascade
  All-cascade zero gone rows h = h
  All-cascade (suc n) gone rows h = All-cascade n _ _ (All-select P _ rows h)

pub Unique-cascade :
    (n : ℕ) (gone : List Bytes) (rows : List TaskColumns)
    → Unique (task_ids rows)
    → Unique (task_ids (cascade n gone rows))
unfolding cascade
Unique-cascade zero gone rows u = u
Unique-cascade (suc n) gone rows u =
    Unique-cascade n _ _ (Unique-select (λ (r : TaskColumns). r.id) _ rows u)

children-nil : (rows : List TaskColumns) → children [] rows ≡ []
unfolding contains
children-nil [] = refl
children-nil (r ∷ rows) = ground (arith, children-nil rows)

others-nil : (rows : List TaskColumns) → others [] rows ≡ rows
unfolding contains
others-nil [] = refl
others-nil (r ∷ rows) = ground (arith, others-nil rows)

-- With nothing deleted nothing cascades.
cascade-nil : (n : ℕ) (rows : List TaskColumns) → cascade n [] rows ≡ rows
unfolding cascade
cascade-nil zero rows = refl
cascade-nil (suc n) rows = rw (children-nil rows, others-nil rows) (cascade-nil n rows)

-- A round that deletes nothing finds no child; any other makes the table shorter.
round_progress :
    (gone : List Bytes) (rows : List TaskColumns)
    → ((children gone rows ≡ []) × (others gone rows ≡ rows))
      ⊎ (length (others gone rows) < length rows)
round_progress gone [] = inl (refl, refl)
round_progress gone (r ∷ rows) = ground (
  arith,
  round_progress gone rows,
  length-select-le (λ (r : TaskColumns). not (refers gone r.parent_task_id)) rows,
)

kept_known :
    (gone : List Bytes) (rows : List TaskColumns) (o : Option Bytes)
    → (satisfied (task_ids rows) o || refers gone o) ≡ true
    → not (refers gone o) ≡ true
    → (satisfied (task_ids (others gone rows)) o || refers (task_ids (children gone rows)) o) ≡ true
kept_known gone rows o h k = ground (
  arith,
  satisfied-select-not (λ (r : TaskColumns). r.id)
      (λ (r : TaskColumns). refers gone r.parent_task_id) rows o,
)

-- The parents of the rows that a round keeps are kept too, or are deleted by it.
round_known :
    (gone : List Bytes) (rows : List TaskColumns)
    → All (λ r. parent_known gone rows r ≡ true) rows
    → All
        (λ r. parent_known (task_ids (children gone rows)) (others gone rows) r ≡ true)
        (others gone rows)
round_known gone rows h =
    All-map (others gone rows) (λ r e. kept_known gone rows r.parent_task_id e.0 e.1)
      (All-zip _ _ (others gone rows)
        (All-select _ (λ r. not (refers gone r.parent_task_id)) rows h)
        (select-All (λ r. not (refers gone r.parent_task_id)) rows))

known_here :
    (rows : List TaskColumns) (o : Option Bytes)
    → (satisfied (task_ids rows) o || refers [] o) ≡ true
    → satisfied (task_ids rows) o ≡ true
unfolding contains
known_here rows o h = ground arith

pub cascade-ParentsPresent :
    (n : ℕ) (gone : List Bytes) (rows : List TaskColumns)
    → length rows ≤ n
    → All (λ r. parent_known gone rows r ≡ true) rows
    → ParentsPresent (cascade n gone rows)
unfolding cascade
cascade-ParentsPresent zero gone [] b h = tt
cascade-ParentsPresent zero gone (r ∷ rows) b h = absurd (omega arith)
cascade-ParentsPresent (suc n) gone rows b h = elim (round_progress gone rows) [
  | inl done ↦
      rw (done.0, done.1, cascade-nil n rows)
        (All-map rows (λ r e. known_here rows r.parent_task_id e)
          (rw (done.0, done.1) at (round_known gone rows h)))
  | inr less ↦
      cascade-ParentsPresent n (task_ids (children gone rows)) (others gone rows) (omega arith)
        (round_known gone rows h)
]

first_known :
    (p : TaskColumns → Bool) (rows : List TaskColumns) (o : Option Bytes)
    → satisfied (task_ids rows) o ≡ true
    → (satisfied (task_ids (select (λ r. not (p r)) rows)) o || refers (task_ids (select p rows)) o)
      ≡ true
first_known p rows o h = ground (arith, satisfied-select-not (λ (r : TaskColumns). r.id) p rows o)

-- After any DELETE FROM tasks the rest is closed under parents, however deep the subtasks go.
pub delete_tasks-ParentsPresent :
    (p : TaskColumns → Bool) (rows : List TaskColumns)
    → ParentsPresent rows
    → ParentsPresent (delete_tasks p rows)
unfolding delete_tasks
delete_tasks-ParentsPresent p rows h =
    cascade-ParentsPresent (length rows) (task_ids (select p rows)) (select (λ r. not (p r)) rows)
      (length-select-le _ rows)
      (All-map (select (λ r. not (p r)) rows) (λ r e. first_known p rows r.parent_task_id e)
        (All-select _ (λ r. not (p r)) rows h))

pub All-delete_tasks {κ} :
    (P : TaskColumns → Type κ) (p : TaskColumns → Bool) (rows : List TaskColumns)
    → All P rows
    → All P (delete_tasks p rows)
unfolding delete_tasks
All-delete_tasks P p rows h =
    All-cascade P (length rows) (task_ids (select p rows)) (select (λ r. not (p r)) rows)
      (All-select P (λ r. not (p r)) rows h)

pub Unique-delete_tasks :
    (p : TaskColumns → Bool) (rows : List TaskColumns)
    → Unique (task_ids rows)
    → Unique (task_ids (delete_tasks p rows))
unfolding delete_tasks
Unique-delete_tasks p rows u =
    Unique-cascade (length rows) (task_ids (select p rows)) (select (λ r. not (p r)) rows)
      (Unique-select (λ (r : TaskColumns). r.id) (λ r. not (p r)) rows u)

-- What is left is nothing that the condition names.
pub delete_tasks-All :
    (p : TaskColumns → Bool) (rows : List TaskColumns)
    → All (λ r. not (p r) ≡ true) (delete_tasks p rows)
unfolding delete_tasks
delete_tasks-All p rows =
    All-cascade _ (length rows) (task_ids (select p rows)) (select (λ r. not (p r)) rows)
      (select-All (λ r. not (p r)) rows)
