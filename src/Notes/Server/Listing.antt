-- ===== src/Notes/Server/Listing.antt =====
-- ListNotes of notes/list_notes.go against the rows and the files, and against GetNote of
-- notes/get_note.go, when no call of the disk or of the database fails of itself.
use echolist_backend.Base.{
  ℕ, All-select, false, Option, none, some, List, [], ◌∷◌, ◌++◌, find_first, All, contains,
  if◌then◌else◌, Bytes, bytes, str_eq, str_eq_iff, str_eq_refl, ◌≡◌, refl, sym, ap, ◌∙◌, arith,
  Bool-cases, inl, inr,
}
use echolist_backend.Base.Action.{ok}
use echolist_backend.Common.Filepath.{join}
use echolist_backend.Common.Uuid.{validate_uuid_v4}
use echolist_backend.Common.Names.{require_dir}
use echolist_backend.Common.Paths.{Os, validate_parent_dir}
use echolist_backend.Common.Disk.{Node, regular, folder, Disk, is_folder, look}
use echolist_backend.Database.Types.{NoteRow}
use echolist_backend.Database.Sql.{note_ids}
use echolist_backend.Database.Notes.{note_with_id}
use echolist_backend.Database.Notes.Laws.{note_at}
use echolist_backend.Database.Sql.Keys.{Unique}
use echolist_backend.Database.Integrity.{IsIntegral}
use echolist_backend.Service.{World}
use echolist_backend.Notes.Server.{PbNote, note_path, row_path, get_note, list_notes}
use echolist_backend.Notes.Server.Reading.{
  quiet_world, shown, shown_content, get_note-Shown, in_dir, add_shown, shown_notes, NoFolders,
  list_notes-Shown,
}

-- Where the file of a row is: its title and id, in its directory.
abbrev pub file_of : Bytes → NoteRow → Bytes
file_of data_dir row =
    let name = row.title ++ (bytes "_" ++ (row.id ++ bytes ".md")) in
    join data_dir (if str_eq row.parent_dir [] then name else row.parent_dir ++ (bytes "/" ++ name))

-- The notes of the rows whose file is there, in the order of the rows: each has the fields of its
-- row and the content of the file.
pub data Listed (data_dir : Bytes) (d : Disk) : List NoteRow → List PbNote → Type 0 where
  no_rows : Listed data_dir d [] []
  without_file :
      {row : NoteRow} {rows : List NoteRow} {notes : List PbNote}
      → look d (file_of data_dir row) ≡ none
      → Listed data_dir d rows notes
      → Listed data_dir d (row ∷ rows) notes
  with_file :
      {row : NoteRow} {rows : List NoteRow} {notes : List PbNote} {content : Bytes} {time : ℕ}
      → look d (file_of data_dir row) ≡ some (regular content time)
      → Listed data_dir d rows notes
      → Listed data_dir d (row ∷ rows) (
          record {
            id = row.id;
            title = row.title;
            content = content;
            updated_at = row.updated_at;
            parent_dir = row.parent_dir;
          }
          ∷ notes)

ids-apart :
    (id : Bytes) (ns : List NoteRow)
    → contains (note_ids ns) id ≡ false
    → All (λ n. str_eq n.id id ≡ false) ns
unfolding contains
ids-apart id [] h = tt
ids-apart id (n ∷ ns) h = (ground arith, ids-apart id ns (ground arith))

behind :
    (n m : NoteRow) (ns : List NoteRow)
    → str_eq m.id n.id ≡ false
    → find_first (note_with_id m.id) ns ≡ some m
    → find_first (note_with_id m.id) (n ∷ ns) ≡ some m
behind n m ns h e = elim (Bool-cases (str_eq n.id m.id)) [
  | inl q ↦
      let e' = (str_eq_iff m.id n.id).1 (sym ((str_eq_iff n.id m.id).0 q)) in absurd (ground arith)
  | inr q ↦ rw q e
]

All-behind :
    (n : NoteRow) (ns ms : List NoteRow)
    → All (λ m. str_eq m.id n.id ≡ false) ms
    → All (λ m. find_first (note_with_id m.id) ns ≡ some m) ms
    → All (λ m. find_first (note_with_id m.id) (n ∷ ns) ≡ some m) ms
All-behind n ns [] h g = tt
All-behind n ns (m ∷ ms) h g = (behind n m ns h.0 g.0, All-behind n ns ms h.1 g.1)

Unique-IsFound :
    (ns : List NoteRow)
    → Unique (note_ids ns)
    → All (λ m. find_first (note_with_id m.id) ns ≡ some m) ns
Unique-IsFound [] u = tt
Unique-IsFound (n ∷ ns) u =
    (rw (str_eq_refl n.id), All-behind n ns ns (ids-apart n.id ns u.0) (Unique-IsFound ns u.1))

module _ (data_dir : Bytes) where
  row_path-file_of : (row : NoteRow) → row_path data_dir row ≡ file_of data_dir row
  unfolding row_path note_path
  row_path-file_of row = refl

  add_shown-Listed :
      (d : Disk) (row : NoteRow) (rows : List NoteRow) (notes : List PbNote) (o : Option Node)
      → look d (row_path data_dir row) ≡ o
      → is_folder o ≡ false
      → Listed data_dir d rows notes
      → Listed data_dir d (row ∷ rows) (add_shown data_dir row o notes)
  add_shown-Listed d row rows notes none e h l =
      without_file (ap (look d) (sym (row_path-file_of row)) ∙ e) l
  add_shown-Listed d row rows notes (some (regular c t)) e h l =
      with_file (ap (look d) (sym (row_path-file_of row)) ∙ e) l
  add_shown-Listed d row rows notes (some folder) e h l = absurd (ground arith)

  shown_notes-Listed :
      (d : Disk) (rows : List NoteRow)
      → NoFolders data_dir d rows
      → Listed data_dir d rows (shown_notes data_dir d rows)
  shown_notes-Listed d [] h = no_rows
  shown_notes-Listed d (row ∷ rows) h =
      add_shown-Listed d row rows (shown_notes data_dir d rows) (look d (row_path data_dir row))
        refl h.0 (shown_notes-Listed d rows h.1)

  -- GetNote gives the note.
  abbrev pub IsGot : World → PbNote → Type 0
  IsGot w note = get_note data_dir note.id (quiet_world w) ≡ (ok note, quiet_world w)

  add_shown-IsGot :
      (w : World) (row : NoteRow) (notes : List PbNote) (o : Option Node)
      → look w.fs.disk (row_path data_dir row) ≡ o
      → validate_uuid_v4 row.id ≡ ok tt
      → note_at row.id w.conn.tables ≡ some row
      → All (IsGot w) notes
      → All (IsGot w) (add_shown data_dir row o notes)
  add_shown-IsGot w row notes none e valid found h = h
  add_shown-IsGot w row notes (some folder) e valid found h = h
  add_shown-IsGot w row notes (some (regular c t)) e valid found h = (
    get_note-Shown data_dir row.id w valid
        ∙ ap (λ r. (shown data_dir w.fs.disk r, quiet_world w)) found
        ∙ ap (λ o. (shown_content data_dir row o, quiet_world w)) e,
    h,
  )

  shown_notes-IsGot :
      (w : World) (rows : List NoteRow)
      → All (λ row. validate_uuid_v4 row.id ≡ ok tt) rows
      → All (λ row. note_at row.id w.conn.tables ≡ some row) rows
      → All (IsGot w) (shown_notes data_dir w.fs.disk rows)
  shown_notes-IsGot w [] v f = tt
  shown_notes-IsGot w (row ∷ rows) v f =
      add_shown-IsGot w row (shown_notes data_dir w.fs.disk rows)
        (look w.fs.disk (row_path data_dir row)) refl v.0 f.0 (shown_notes-IsGot w rows v.1 f.1)

-- ListNotes on an accepted directory, if no call of the disk or of the database fails of itself, no
-- directory stands where a row of the directory has its file, the ids of these rows are valid and
-- the tables are integral: it returns, in the order of the table, exactly one note for each row
-- directly in the directory whose file is there, with the fields of the row and the content of the
-- file, and changes nothing; and GetNote returns each of these notes under its id.
pub list_notes-Listed :
    (os : Disk → Os) (new_string : ℕ → Bytes) (data_dir parent_dir root : Bytes) (w : World)
    → validate_parent_dir (os w.fs.disk) data_dir parent_dir ≡ ok root
    → require_dir ((os w.fs.disk).stat root) ≡ ok tt
    → NoFolders data_dir w.fs.disk (in_dir parent_dir w.conn.tables)
    → All (λ row. validate_uuid_v4 row.id ≡ ok tt) (in_dir parent_dir w.conn.tables)
    → IsIntegral w.conn.tables
    → (notes : List PbNote) × (list_notes os new_string data_dir parent_dir (quiet_world w)
        ≡ (ok notes, quiet_world w))
      × Listed data_dir w.fs.disk (in_dir parent_dir w.conn.tables) notes
      × All (IsGot data_dir w) notes
list_notes-Listed os new_string data_dir parent_dir root w valid there files ids sound =
    let rows = in_dir parent_dir w.conn.tables in
    (
      shown_notes data_dir w.fs.disk rows,
      list_notes-Shown os new_string data_dir parent_dir root w valid there files,
      shown_notes-Listed data_dir w.fs.disk rows files,
      shown_notes-IsGot data_dir w rows ids (
          All-select (λ row. note_at row.id w.conn.tables ≡ some row)
            (λ n. str_eq n.parent_dir parent_dir) w.conn.tables.notes
            (Unique-IsFound w.conn.tables.notes sound.note_keys)),
    )
