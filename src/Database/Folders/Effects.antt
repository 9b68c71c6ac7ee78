-- ===== src/Database/Folders/Effects.antt =====
-- The effect of DeleteByParentDir and RenameParentDir of database/folders.go on the tables.
use mathlib.Core.List.{map-map}
use mathlib.Core.Path.{fun_ext, subst}
use echolist_backend.Base.{
  ℕ, ◌+◌, ◌-◌, ◌<◌, Bool, true, false, ◌||◌, not, [], ◌∷◌, ◌++◌, map, select, drop, length, All,
  if◌then◌else◌, Bytes, bytes, str_eq, ◌≡◌, refl, arith, length-append, All-append, Bool-cases, inl,
  inr,
}
use echolist_backend.Database.Types.{TaskListColumns, NoteRow, Tables}
use echolist_backend.Database.Conn.{Conn}
use echolist_backend.Database.Conn.Outcome.{OnlyFaults, OnlyFaults-map}
use echolist_backend.Database.Sql.{list_ids, refers, delete_tasks, drop_chars, substr}
use echolist_backend.Database.Folders.{
  in_deleted_dir, delete_by_parent_dir, rename_parent_dir, rename_exact, rename_prefix, note_dirs,
  list_dirs,
}
use echolist_backend.Database.Folders.Prefix.{starts_with_fold, under_prefix-eq-starts_with_fold}

-- The folder itself, or a path below it but for the case of ASCII letters.
abbrev pub within : Bytes → Bytes → Bool
within dir_path dir = str_eq dir dir_path || starts_with_fold (dir_path ++ bytes "/") dir

in_deleted_dir-eq-within : (dir_path : Bytes) → in_deleted_dir dir_path ≡ within dir_path
unfolding in_deleted_dir
in_deleted_dir-eq-within dir_path = fun_ext λ dir. rw under_prefix-eq-starts_with_fold

-- Without the notes and the lists in the folders of a test, and without the tasks of those lists.
abbrev pub Emptied : (Bytes → Bool) → Tables → Tables → Type 0
Emptied p t t' =
    (t'.notes ≡ select (λ n. not (p n.parent_dir)) t.notes)
    × (t'.task_lists ≡ select (λ l. not (p l.parent_dir)) t.task_lists)
    × (t'.tasks
        ≡ delete_tasks
            (λ r. refers (list_ids (select (λ l. p l.parent_dir) t.task_lists)) r.task_list_id)
            t.tasks)

delete_by_parent_dir_outcome :
    (dir_path : Bytes) (c : Conn)
    → OnlyFaults
        (λ _ t'. Emptied (in_deleted_dir dir_path) c.tables t')
        c
        (delete_by_parent_dir dir_path c)
unfolding delete_by_parent_dir
delete_by_parent_dir_outcome dir_path c = ground arith

-- DeleteByParentDir removes exactly the notes and task lists whose folder is the given one or lies
-- below it, the case of ASCII letters aside, and with the lists their tasks; it fails only if a
-- statement fails, and then changes nothing.
pub delete_by_parent_dir_exact :
    (dir_path : Bytes) (c : Conn)
    → OnlyFaults (λ _ t'. Emptied (within dir_path) c.tables t') c (delete_by_parent_dir dir_path c)
delete_by_parent_dir_exact dir_path c =
    subst (λ p. OnlyFaults (λ _ t'. Emptied p c.tables t') c (delete_by_parent_dir dir_path c))
      (in_deleted_dir-eq-within dir_path) (delete_by_parent_dir_outcome dir_path c)

abbrev pub IsAscii : Bytes → Type 0
IsAscii s = All (λ c. c < 128) s

-- Where a row of a renamed folder belongs: the old path becomes the new one, at the front.
abbrev pub relocated : Bytes → Bytes → Bytes → Bytes
relocated old new dir =
    if str_eq dir old
    then new
    else if starts_with_fold (old ++ bytes "/") dir
    then (new ++ bytes "/") ++ drop (length old + 1) dir
    else dir

drop_chars-ascii :
    (p dir : Bytes)
    → IsAscii p
    → starts_with_fold p dir ≡ true
    → drop_chars (length p) dir ≡ drop (length p) dir
unfolding drop_chars
drop_chars-ascii [] dir a h = refl
drop_chars-ascii (c ∷ p) [] a h = refl
drop_chars-ascii (c ∷ p) (y ∷ ys) a h = ground (arith, drop_chars-ascii p ys a.1)

one_off : (n : ℕ) → n + 1 - 1 ≡ n
one_off n = omega arith

prefix_bytes : (old : Bytes) → length (old ++ bytes "/") ≡ length old + 1
prefix_bytes old = omega (arith, length-append old (bytes "/"))

rename_prefix-ascii :
    (old new dir : Bytes)
    → IsAscii old
    → rename_prefix old new dir ≡ (
        if starts_with_fold (old ++ bytes "/") dir
        then (new ++ bytes "/") ++ drop (length old + 1) dir
        else dir)
unfolding rename_prefix substr
rename_prefix-ascii old new dir a = elim (Bool-cases (starts_with_fold (old ++ bytes "/") dir)) [
  | inl h ↦
      let kept =
        drop_chars-ascii (old ++ bytes "/") dir (All-append _ old (bytes "/") a (omega arith)) h in
      rw (
        under_prefix-eq-starts_with_fold,
        h,
        one_off (length (old ++ bytes "/")),
        kept,
        prefix_bytes old,
      )
  | inr h ↦ rw (under_prefix-eq-starts_with_fold, h)
]

renamed-eq-relocated :
    (old new dir : Bytes)
    → IsAscii old
    → starts_with_fold (old ++ bytes "/") new ≡ false
    → rename_prefix old new (rename_exact old new dir) ≡ relocated old new dir
renamed-eq-relocated old new dir a apart = elim (Bool-cases (str_eq dir old)) [
  | inl h ↦ rw (h, rename_prefix-ascii old new new a, apart)
  | inr h ↦ rw (h, rename_prefix-ascii old new dir a)
]

-- The rows of both tables with their folder mapped; the tasks as they were.
abbrev pub Moved : (Bytes → Bytes) → Tables → Tables → Type 0
Moved f t t' =
    (t'.notes ≡ map (λ (n : NoteRow). record n { parent_dir = f n.parent_dir }) t.notes)
    × (t'.task_lists
        ≡ map (λ (l : TaskListColumns). record l { parent_dir = f l.parent_dir }) t.task_lists)
    × (t'.tasks ≡ t.tasks)

abbrev twice_moved : Bytes → Bytes → Tables → Tables
twice_moved old new t = list_dirs (rename_prefix old new) (
    list_dirs (rename_exact old new)
      (note_dirs (rename_prefix old new) (note_dirs (rename_exact old new) t)))

rename_parent_dir_outcome :
    (old new : Bytes) (c : Conn)
    → OnlyFaults (λ _ t'. t' ≡ twice_moved old new c.tables) c (rename_parent_dir old new c)
unfolding rename_parent_dir
rename_parent_dir_outcome old new c = ground arith

twice_moved-Moved :
    (old new : Bytes) (t : Tables)
    → IsAscii old
    → starts_with_fold (old ++ bytes "/") new ≡ false
    → Moved (relocated old new) t (twice_moved old new t)
twice_moved-Moved old new t a apart =
    subst (λ f. Moved f t (twice_moved old new t))
      (fun_ext λ dir. renamed-eq-relocated old new dir a apart)
      (map-map _ _ t.notes, map-map _ _ t.task_lists, refl)

-- Renaming a folder whose path is ASCII to one that does not lie below it moves exactly the notes
-- and task lists of the folder and of the folders below it (the case of ASCII letters aside) to
-- the same place under the new path; it fails only if a statement fails, and then changes nothing.
pub rename_parent_dir_exact :
    (old new : Bytes) (c : Conn)
    → IsAscii old
    → starts_with_fold (old ++ bytes "/") new ≡ false
    → OnlyFaults (λ _ t'. Moved (relocated old new) c.tables t') c (rename_parent_dir old new c)
rename_parent_dir_exact old new c a apart =
    OnlyFaults-map c (rename_parent_dir old new c)
      (λ _ t' e. rw e (twice_moved-Moved old new c.tables a apart))
      (rename_parent_dir_outcome old new c)
