-- ===== src/Database/Sql.antt =====
-- The SQL that the statements of package database share: keys, foreign keys with ON DELETE
-- CASCADE (database/schema.go), ORDER BY, and LIKE and SUBSTR on UTF-8 text.
pub mod Keys
pub mod Cascade
pub mod Sorting
use echolist_backend.Base.{
  ℕ, zero, suc, ◌+◌, ◌-◌, Bool, true, false, ◌&&◌, ◌||◌, not, Option, none, some, List, [], ◌∷◌,
  ◌++◌, map, select, length, leb, ltb, ◌==◌, if◌then◌else◌, Bytes, str_eq, str_le, contains,
}
use echolist_backend.Base.Action.{Result, ok, err}
use echolist_backend.Database.Types.{TaskListColumns, TaskColumns, NoteRow, Tables}
use echolist_backend.Database.Conn.{DbError, constraint}

abbrev pub task_ids : List TaskColumns → List Bytes
task_ids = map (λ (r : TaskColumns). r.id)

abbrev pub list_ids : List TaskListColumns → List Bytes
list_ids = map (λ (l : TaskListColumns). l.id)

abbrev pub note_ids : List NoteRow → List Bytes
note_ids = map (λ (n : NoteRow). n.id)

-- A nullable reference into a list of keys.
abbrev pub refers : List Bytes → Option Bytes → Bool
refers keys none = false
refers keys (some k) = contains keys k

-- NULL satisfies a foreign key.
abbrev pub satisfied : List Bytes → Option Bytes → Bool
satisfied keys none = true
satisfied keys (some k) = contains keys k

-- INSERT INTO tasks: the PRIMARY KEY, and the two foreign keys at the end of the statement.
unfoldable pub insert_task_row : TaskColumns → Tables → Result DbError (Unit {0} × Tables)
insert_task_row r t =
    let rows = t.tasks ++ (r ∷ []) in
    if contains (task_ids t.tasks) r.id
    then err constraint
    else if satisfied (list_ids t.task_lists) r.task_list_id
        && satisfied (task_ids rows) r.parent_task_id
    then ok (tt, record t { tasks = rows })
    else err constraint

-- INSERT INTO task_lists
unfoldable pub insert_list_row : TaskListColumns → Tables → Result DbError (Unit {0} × Tables)
insert_list_row l t =
    if contains (list_ids t.task_lists) l.id
    then err constraint
    else ok (tt, record t { task_lists = t.task_lists ++ (l ∷ []) })

-- parent_task_id REFERENCES tasks(id) ON DELETE CASCADE, once the tasks `gone` are deleted: their
-- children go, then the children of those. A round for each row is enough.
unfoldable pub cascade : ℕ → List Bytes → List TaskColumns → List TaskColumns
cascade zero gone rows = rows
cascade (suc n) gone rows =
    cascade n (task_ids (select (λ r. refers gone r.parent_task_id) rows))
      (select (λ r. not (refers gone r.parent_task_id)) rows)

-- DELETE FROM tasks WHERE ...
unfoldable pub delete_tasks : (TaskColumns → Bool) → List TaskColumns → List TaskColumns
unfolding cascade
delete_tasks p rows =
    cascade (length rows) (task_ids (select p rows)) (select (λ r. not (p r)) rows)

-- DELETE FROM task_lists WHERE ...; task_list_id REFERENCES task_lists(id) ON DELETE CASCADE
unfoldable pub delete_lists : (TaskListColumns → Bool) → Tables → ℕ × Tables
unfolding delete_tasks
delete_lists p t =
    let gone = list_ids (select p t.task_lists) in
    (
      length gone,
      record t {
        task_lists = select (λ l. not (p l)) t.task_lists;
        tasks = delete_tasks (λ r. refers gone r.task_list_id) t.tasks;
      },
    )

-- ORDER BY: a stable sort by a test `a ≤ b`.
module _ {ℓ} {A : Type ℓ} (le : A → A → Bool) where
  unfoldable pub insert_sorted : A → List A → List A
  insert_sorted x [] = x ∷ []
  insert_sorted x (y ∷ ys) =
      let rest = insert_sorted x ys in if le x y then x ∷ y ∷ ys else y ∷ rest

  unfoldable pub order_by : List A → List A
  unfolding insert_sorted
  order_by [] = []
  order_by (x ∷ xs) = insert_sorted x (order_by xs)

-- Column by column: the next test decides between equal texts.
abbrev pub text_then : Bytes → Bytes → Bool → Bool
text_then a b next = if str_eq a b then next else str_le a b

-- ASCII letters without their case.
abbrev pub fold_case : ℕ → ℕ
fold_case c = if leb b'A' c && leb c b'Z' then c + 32 else c

abbrev pub same_char : ℕ → ℕ → Bool
same_char a b = fold_case a == fold_case b

-- The bytes after the continuation bytes 10xxxxxx at the front.
abbrev pub skip_continuation : Bytes → Bytes
skip_continuation [] = []
skip_continuation (y ∷ ys) =
    let rest = skip_continuation ys in if leb 0x80 y && ltb y 0xc0 then rest else y ∷ ys

-- The bytes after one character, whose first byte is `y`.
abbrev pub skip_char : ℕ → Bytes → Bytes
skip_char y ys = if leb 0xc0 y then skip_continuation ys else ys

unfoldable pub drop_chars : ℕ → Bytes → Bytes
drop_chars zero s = s
drop_chars (suc n) [] = []
drop_chars (suc n) (y ∷ ys) = drop_chars n (skip_char y ys)

-- SUBSTR(s, n) from the n-th character on, counted from 1.
unfoldable pub substr : Bytes → ℕ → Bytes
unfolding drop_chars
substr s n = drop_chars (n - 1) s

abbrev pub like_char : ℕ → (Bytes → Bool) → Bytes → Bool
like_char c rest [] = false
like_char c rest (y ∷ ys) = same_char c y && rest ys

abbrev pub like_one : (Bytes → Bool) → Bytes → Bool
like_one rest [] = false
like_one rest (y ∷ ys) = rest (skip_char y ys)

unfoldable pub some_suffix : (Bytes → Bool) → Bytes → Bool
some_suffix m [] = m []
some_suffix m (y ∷ ys) = m (y ∷ ys) || some_suffix m ys

-- `text LIKE pattern ESCAPE '\'`, without regard to the case of ASCII letters. The flag is set
-- behind an escape character.
unfoldable pub like : Bool → Bytes → Bytes → Bool
unfolding some_suffix
like true [] t = false
like true (c ∷ p) t = like_char c (like false p) t
like false [] [] = true
like false [] (y ∷ ys) = false
like false (c ∷ p) t =
    let rest = like false p in
    let escaped = like true p t in
    if c == b'%'
    then some_suffix rest t
    else if c == b'_'
    then like_one rest t
    else if c == 92
    then escaped
    else like_char c rest t
