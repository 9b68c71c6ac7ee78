-- ===== src/Notes/Server/Reading.antt =====
-- GetNote of notes/get_note.go and ListNotes of notes/list_notes.go, when no call of the disk or
-- of the database fails of itself.
use echolist_backend.Base.{
  ℕ, false, Option, none, some, List, [], ◌∷◌, Bytes, str_eq, ◌≡◌, refl, ap, ◌∙◌, arith, select,
  All,
}
use echolist_backend.Base.Action.{Result, ok, err, pure, proceed, proceed-ok, ◌>>=◌}
use echolist_backend.Common.Errors.{
  ConnectError, new_error, not_found, internal, note_not_found, failed_to_query_note,
  failed_to_read_note,
}
use echolist_backend.Common.Uuid.{validate_uuid_v4}
use echolist_backend.Common.Names.{require_dir}
use echolist_backend.Common.Paths.{Os, validate_parent_dir}
use echolist_backend.Common.Disk.{
  Node, regular, folder, Disk, is_folder, look, read_file, content_of,
}
use echolist_backend.Database.Conn.{Conn, DbError}
use echolist_backend.Database.Answers.{found_or}
use echolist_backend.Database.Types.{NoteRow, Tables}
use echolist_backend.Database.Notes
use echolist_backend.Database.Notes.Laws.{note_at}
use echolist_backend.Service.{World, Handler, on_fs, there_or, valid_parent_dir, required_dir}
use echolist_backend.Notes.Server.{
  PbNote, note_of, row_path, get_note, read_notes, list_notes, listed_or_error, append_listed,
}

-- A world in which no call fails of itself.
abbrev pub quiet_world : World → World
quiet_world w = record w { conn = record w.conn { faults = [] }; fs = record w.fs { meets = [] } }

module _ (data_dir : Bytes) where
  -- What a node of the disk tells of a note's content.
  abbrev pub shown_content : NoteRow → Option Node → Result ConnectError PbNote
  shown_content row none = err (new_error not_found note_not_found)
  shown_content row (some folder) = err (new_error internal failed_to_read_note)
  shown_content row (some (regular c t)) = ok (note_of row c)

  -- The answer to a row: the note with the content of its file.
  abbrev pub shown : Disk → Option NoteRow → Result ConnectError PbNote
  shown d none = err (new_error not_found note_not_found)
  shown d (some row) = shown_content row (look d (row_path data_dir row))

  -- The rest of GetNote after its query.
  abbrev after_query : World → Result DbError NoteRow × Conn → Result ConnectError PbNote × World
  after_query w p =
      (found_or note_not_found failed_to_query_note p.0 >>= λ row w1.
      (do
        r ← on_fs (read_file (row_path data_dir row))
        content ← there_or note_not_found failed_to_read_note r
        pure (note_of row content))
        w1)
        (record w { conn = p.1 })

  after_content :
      (w : World) (row : NoteRow) (o : Option Node)
      → (there_or note_not_found failed_to_read_note (content_of o) >>= λ content.
            pure (note_of row content))
          w
        ≡ (shown_content row o, w)
  after_content w row none = refl
  after_content w row (some folder) = refl
  after_content w row (some (regular c t)) = refl

  after_row :
      (w : World) (o : Option NoteRow)
      → after_query (quiet_world w) (Notes.found_row o (quiet_world w).conn)
        ≡ (shown w.fs.disk o, quiet_world w)
  unfolding read_file
  after_row w none = refl
  after_row w (some row) =
      after_content (quiet_world w) row (look w.fs.disk (row_path data_dir row))

  -- GetNote with a valid id returns the row of the table under that id with the content of the
  -- file at its path, NotFound if there is no row or no file, and Internal if a directory stands
  -- there; it changes neither the disk nor the database.
  pub get_note-Shown :
      (id : Bytes) (w : World)
      → validate_uuid_v4 id ≡ ok tt
      → get_note data_dir id (quiet_world w)
        ≡ (shown w.fs.disk (note_at id w.conn.tables), quiet_world w)
  unfolding get_note Notes.get_note
  get_note-Shown id w valid =
      proceed-ok _ (validate_uuid_v4 id) tt (quiet_world w) valid
      ∙ after_row w (note_at id w.conn.tables)

  abbrev pub add_shown : NoteRow → Option Node → List PbNote → List PbNote
  add_shown row none notes = notes
  add_shown row (some folder) notes = notes
  add_shown row (some (regular c t)) notes = note_of row c ∷ notes

  -- The notes of the rows whose file is there, in the order of the rows.
  abbrev pub shown_notes : Disk → List NoteRow → List PbNote
  shown_notes d [] = []
  shown_notes d (row ∷ rows) = add_shown row (look d (row_path data_dir row)) (shown_notes d rows)

  after_file :
      (w : World) (row : NoteRow) (o : Option Node) (rest : Handler (List PbNote))
      (notes : List PbNote)
      → is_folder o ≡ false
      → rest w ≡ (ok notes, w)
      → (listed_or_error data_dir (content_of o) >>= λ content. (do
        later ← rest
        pure (append_listed data_dir row content later)))
          w
        ≡ (ok (add_shown row o notes), w)
  after_file w row none rest notes h r = ap (λ p. proceed (λ later. pure later) p.0 p.1) r
  after_file w row (some folder) rest notes h r = ground arith
  after_file w row (some (regular c t)) rest notes h r =
      ap (λ p. proceed (λ later. pure (note_of row c ∷ later)) p.0 p.1) r

  -- No directory stands where a row has its file.
  abbrev pub NoFolders : Disk → List NoteRow → Type 0
  NoFolders d rows = All (λ row. is_folder (look d (row_path data_dir row)) ≡ false) rows

  read_notes-shown :
      (w : World) (rows : List NoteRow)
      → NoFolders w.fs.disk rows
      → read_notes data_dir rows (quiet_world w) ≡ (ok (shown_notes w.fs.disk rows), quiet_world w)
  unfolding read_notes read_file
  read_notes-shown w [] h = refl
  read_notes-shown w (row ∷ rows) h =
      after_file (quiet_world w) row (look w.fs.disk (row_path data_dir row))
        (read_notes data_dir rows) (shown_notes w.fs.disk rows) h.0 (read_notes-shown w rows h.1)

-- The rows directly in a directory, in the order of the table.
abbrev pub in_dir : Bytes → Tables → List NoteRow
in_dir parent_dir t = select (λ n. str_eq n.parent_dir parent_dir) t.notes

module _ (os : Disk → Os) (new_string : ℕ → Bytes) (data_dir : Bytes) where
  -- ListNotes on an accepted directory returns, in the order of the table, one note for each row
  -- directly in that directory whose file is there, with the content of the file, and skips the
  -- rows whose file is missing; it changes nothing.
  pub list_notes-Shown :
      (parent_dir root : Bytes) (w : World)
      → validate_parent_dir (os w.fs.disk) data_dir parent_dir ≡ ok root
      → require_dir ((os w.fs.disk).stat root) ≡ ok tt
      → NoFolders data_dir w.fs.disk (in_dir parent_dir w.conn.tables)
      → list_notes os new_string data_dir parent_dir (quiet_world w)
        ≡ (ok (shown_notes data_dir w.fs.disk (in_dir parent_dir w.conn.tables)), quiet_world w)
  unfolding list_notes valid_parent_dir required_dir Notes.list_notes
  list_notes-Shown parent_dir root w valid there files =
      proceed-ok _ (validate_parent_dir (os w.fs.disk) data_dir parent_dir) root (quiet_world w)
        valid
      ∙ proceed-ok _ (require_dir ((os w.fs.disk).stat root)) tt (quiet_world w) there
      ∙ read_notes-shown data_dir w (in_dir parent_dir w.conn.tables) files
