-- ===== src/Notes/Server/Deleting.antt =====
-- DeleteNote of notes/delete_note.go, and GetNote after it.
use echolist_backend.Base.{
  Bool, true, false, none, some, if◌then◌else◌, Bytes, str_eq, str_eq_refl, ◌≡◌, refl, sym, ap, ◌∙◌,
  arith,
}
use echolist_backend.Base.Action.{Result, ok, err, proceed-inverse, ◌>>=◌}
use echolist_backend.Base.Triples.{Ends}
use echolist_backend.Common.Errors.{new_error, not_found, note_not_found}
use echolist_backend.Common.Uuid.{validate_uuid_v4}
use echolist_backend.Common.Disk.{Fs, IoError, exist, no_entry, other, look, remove}
use echolist_backend.Common.Disk.Calls.{remove-gone}
use echolist_backend.Database.Conn.{Conn, DbError}
use echolist_backend.Database.Conn.Outcome.{AllOrNothing}
use echolist_backend.Database.Types.{NoteRow}
use echolist_backend.Database.Notes
use echolist_backend.Database.Notes.Laws.{note_at, is_some, delete_note_lem}
use echolist_backend.Service.{World, Handler}
use echolist_backend.Service.Steps.{found-ok, got-ok, get_note-row}
use echolist_backend.Notes.Server.{row_path, gone_or_error, deleted_or_error, delete_note, get_note}
use echolist_backend.Notes.Server.Reading.{quiet_world, shown, get_note-Shown}

module _ (data_dir : Bytes) {B : Type 0} where
  -- What DeleteNote goes on with: os.Remove has left no file.
  gone-ok :
      (path : Bytes) (s : Fs) (p : Result IoError (Unit {0}) × Fs) (f : Unit {0} → Handler B)
      (w w' : World) (b : B)
      → Ends
          (λ _ s'. look s'.disk path ≡ none)
          (λ e s'. (s'.disk ≡ s.disk) × (e ≡ no_entry → look s'.disk path ≡ none))
          p
      → (gone_or_error data_dir p.0 >>= f) (record w { fs = p.1 }) ≡ (ok b, w')
      → (look p.1.disk path ≡ none) × (f tt (record w { fs = p.1 }) ≡ (ok b, w'))
  gone-ok path s (ok u, s') f w w' b e h = (e, h)
  gone-ok path s (err exist, s') f w w' b e h = ground arith
  gone-ok path s (err no_entry, s') f w w' b e h = (e.1 refl, h)
  gone-ok path s (err other, s') f w w' b e h = ground arith

module _ (data_dir : Bytes) where
  deleted-ok :
      (deleted : Bool) (w w' : World) → deleted_or_error data_dir deleted w ≡ (ok tt, w') → w ≡ w'
  deleted-ok true w w' h = ground arith
  deleted-ok false w w' h = ground arith

delete_note-row :
    (id j : Bytes) (c : Conn) (p : Result DbError Bool × Conn) (found : Bool)
    → p ≡ (ok found, p.1)
    → AllOrNothing
        (λ found t'.
          (found ≡ is_some (note_at id c.tables))
          × (note_at j t' ≡ (if str_eq id j then none else note_at j c.tables)))
        c.tables
        p
    → note_at j p.1.tables ≡ (if str_eq id j then none else note_at j c.tables)
delete_note-row id j c (ok x, c') found h k = k.1
delete_note-row id j c (err e, c') found h k = ground arith

module _ (data_dir : Bytes) where
  -- What a successful DeleteNote has done.
  abbrev pub Deleted : Bytes → Bytes → World → World → Type 0
  Deleted id j w w' =
      (row : NoteRow) × (note_at id w.conn.tables ≡ some row)
      × (look w'.fs.disk (row_path data_dir row) ≡ none)
      × (note_at j w'.conn.tables ≡ (if str_eq id j then none else note_at j w.conn.tables))

  delete_note-Deleted :
      (id j : Bytes) (w w' : World) → delete_note data_dir id w ≡ (ok tt, w') → Deleted id j w w'
  unfolding delete_note
  delete_note-Deleted id j w w' h =
      let (u1, h1, s1) = proceed-inverse _ (validate_uuid_v4 id) w w' tt h in
      let g = Notes.get_note id w.conn in
      let (row, got, s2) = found-ok _ _ g _ w w' tt s1 in
      let (here, same) = get_note-row id row w.conn g.1 got in
      let w1 = record w { conn = g.1 } in
      let r = remove (row_path data_dir row) w.fs in
      let (free, s3) =
        gone-ok data_dir (row_path data_dir row) w.fs r _ w1 w' tt
          (remove-gone (row_path data_dir row) w.fs) s2 in
      let w2 = record w1 { fs = r.1 } in
      let d = Notes.delete_note id g.1 in
      let (deleted, done, s4) = got-ok _ d _ w2 w' tt s3 in
      let left = deleted-ok data_dir deleted (record w2 { conn = d.1 }) w' s4 in
      let rows = delete_note-row id j g.1 d deleted done (delete_note_lem id g.1 j) in
      (
        row,
        here,
        ap (λ (v : World). look v.fs.disk (row_path data_dir row)) (sym left) ∙ free,
        ap (λ (v : World). note_at j v.conn.tables) (sym left)
            ∙ rows
            ∙ ap (λ t. if str_eq id j then none else note_at j t) same,
      )

  -- After a successful DeleteNote, whatever calls failed in it, the row and the file of the note
  -- are gone, every other row is as it was, and GetNote with the id answers NotFound, when no call
  -- fails in it.
  pub delete_note-then_get_note :
      (id j : Bytes) (w w' : World)
      → validate_uuid_v4 id ≡ ok tt
      → delete_note data_dir id w ≡ (ok tt, w')
      → Deleted id j w w'
        × (get_note data_dir id (quiet_world w')
            ≡ (err (new_error not_found note_not_found), quiet_world w'))
  delete_note-then_get_note id j w w' valid h =
      let absent = (delete_note-Deleted id id w w' h).3 in
      (
        delete_note-Deleted id j w w' h,
        get_note-Shown data_dir id w' valid
            ∙ ap (λ o. (shown data_dir w'.fs.disk o, quiet_world w')) (absent_row absent),
      )
    where
      absent_row :
          note_at id w'.conn.tables ≡ (if str_eq id id then none else note_at id w.conn.tables)
          → note_at id w'.conn.tables ≡ none
      absent_row e = ground (arith, str_eq_refl id)
