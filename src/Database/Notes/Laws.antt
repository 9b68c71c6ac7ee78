-- ===== src/Database/Notes/Laws.antt =====
-- The table notes as a partial map from ids to rows, under the methods of database/notes.go.
use echolist_backend.Base.{
  ℕ, Bool, true, false, not, Option, none, some, List, [], ◌∷◌, ◌++◌, map, select, find_first,
  length, ltb, if◌then◌else◌, Bytes, str_eq, str_eq_iff, contains, ◌≡◌, refl, arith,
}
use echolist_backend.Database.Types.{NoteRow, InsertNoteParams, Tables}
use echolist_backend.Database.Conn.{Conn}
use echolist_backend.Database.Conn.Outcome.{AllOrNothing}
use echolist_backend.Database.Sql.{note_ids}
use echolist_backend.Database.Notes.{insert_note, update_note, delete_note, note_with_id, retitled}

-- The row with an id, if there is one.
abbrev pub note_at : Bytes → Tables → Option NoteRow
note_at id t = find_first (note_with_id id) t.notes

abbrev pub is_some : {A : Type 0} → Option A → Bool
is_some none = false
is_some (some a) = true

find_first-append :
    (n : NoteRow) (j : Bytes) (ns : List NoteRow)
    → contains (note_ids ns) n.id ≡ false
    → find_first (note_with_id j) (ns ++ (n ∷ []))
      ≡ (if str_eq n.id j then some n else find_first (note_with_id j) ns)
unfolding contains
find_first-append n j [] h = refl
find_first-append n j (m ∷ ns) h =
    ground
      (arith, find_first-append n j ns, str_eq_iff n.id j, str_eq_iff m.id j, str_eq_iff m.id n.id)

abbrev pub row_of : InsertNoteParams → NoteRow
row_of p = record {
  id = p.id;
  title = p.title;
  parent_dir = p.parent_dir;
  preview = p.preview;
  created_at = p.created_at;
  updated_at = p.updated_at;
}

-- InsertNote adds the row under its id and leaves every other id alone; if the id is taken it
-- fails, as it does when the statement fails, and changes nothing.
pub insert_note_lem :
    (params : InsertNoteParams) (c : Conn) (j : Bytes)
    → AllOrNothing
        (λ _ t'.
          note_at j t' ≡ (if str_eq params.id j then some (row_of params) else note_at j c.tables))
        c.tables
        (insert_note params c)
unfolding insert_note
insert_note_lem params c j = ground (arith, find_first-append (row_of params) j c.tables.notes)

find_first-retitled :
    (id title preview j : Bytes) (time : ℕ) (ns : List NoteRow)
    → find_first (note_with_id j) (map (retitled id title preview time) ns)
      ≡ elim (find_first (note_with_id j) ns) [
        | none ↦ none
        | some n ↦ some (retitled id title preview time n)
      ]
find_first-retitled id title preview j time [] = refl
find_first-retitled id title preview j time (m ∷ ns) =
    ground
      (arith, find_first-retitled id title preview j time ns, str_eq_iff m.id j, str_eq_iff m.id id)

-- A row is counted exactly if there is one.
length-select-find_first :
    (id : Bytes) (ns : List NoteRow)
    → ltb 0 (length (select (note_with_id id) ns)) ≡ is_some (find_first (note_with_id id) ns)
length-select-find_first id [] = refl
length-select-find_first id (m ∷ ns) = ground (arith, length-select-find_first id ns)

map-retitled_absent :
    (id title preview : Bytes) (time : ℕ) (ns : List NoteRow)
    → is_some (find_first (note_with_id id) ns) ≡ false
    → map (retitled id title preview time) ns ≡ ns
map-retitled_absent id title preview time [] h = refl
map-retitled_absent id title preview time (m ∷ ns) h =
    ground (arith, map-retitled_absent id title preview time ns)

-- UpdateNote succeeds only if the id is there, and then sets the title, preview and time of that
-- row alone; otherwise it fails and changes nothing.
pub update_note_lem :
    (id title preview : Bytes) (time : ℕ) (c : Conn) (j : Bytes)
    → AllOrNothing
        (λ _ t'.
          (is_some (note_at id c.tables) ≡ true)
          × (note_at j t' ≡ elim (note_at j c.tables) [
            | none ↦ none
            | some n ↦ some (retitled id title preview time n)
          ]))
        c.tables
        (update_note id title preview time c)
unfolding update_note
update_note_lem id title preview time c j = ground (
  arith,
  find_first-retitled id title preview j time c.tables.notes,
  length-select-find_first id c.tables.notes,
  map-retitled_absent id title preview time c.tables.notes,
)

find_first-deleted :
    (id j : Bytes) (ns : List NoteRow)
    → find_first (note_with_id j) (select (λ n. not (note_with_id id n)) ns)
      ≡ (if str_eq id j then none else find_first (note_with_id j) ns)
find_first-deleted id j [] = ground arith
find_first-deleted id j (m ∷ ns) =
    ground
      (arith, find_first-deleted id j ns, str_eq_iff m.id j, str_eq_iff m.id id, str_eq_iff id j)

-- DeleteNote says whether the id was there, and leaves no row under it and every other id alone;
-- if the statement fails nothing changes.
pub delete_note_lem :
    (id : Bytes) (c : Conn) (j : Bytes)
    → AllOrNothing
        (λ found t'.
          (found ≡ is_some (note_at id c.tables))
          × (note_at j t' ≡ (if str_eq id j then none else note_at j c.tables)))
        c.tables
        (delete_note id c)
unfolding delete_note
delete_note_lem id c j =
    ground
      (arith, find_first-deleted id j c.tables.notes, length-select-find_first id c.tables.notes)
