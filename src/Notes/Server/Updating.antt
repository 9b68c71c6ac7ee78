-- ===== src/Notes/Server/Updating.antt =====
-- UpdateNote of notes/update_note.go, and GetNote after it.
use echolist_backend.Base.{
  ℕ, Bool, true, false, Option, none, some, List, [], ◌∷◌, find_first, if◌then◌else◌, Bytes, str_eq,
  str_eq_iff, str_eq_refl, ◌≡◌, refl, sym, ap, ◌∙◌, arith,
}
use mathlib.Core.Path.{subst}
use echolist_backend.Base.Action.{
  Result, ok, err, pure, proceed-inverse, pure-injective, ◌>>=◌, >>=-InTurn,
}
use echolist_backend.Base.Triples.{Ends, ends-ok}
use echolist_backend.Common.Errors.{ConnectError}
use echolist_backend.Common.Filepath.{join}
use echolist_backend.Common.Names.{validate_name, validate_content_length, max_note_content_bytes}
use echolist_backend.Common.Uuid.{validate_uuid_v4}
use echolist_backend.Common.Disk.{Node, regular, Fs, IoError, look, rename, stat}
use echolist_backend.Common.Disk.Calls.{stat_lem, rename-file}
use echolist_backend.Common.AtomicWrite.{write_atomically}
use echolist_backend.Common.AtomicWrite.Promise.{write_atomically_lem}
use echolist_backend.Database.Conn.{Conn, DbError, fault}
use echolist_backend.Database.Conn.Outcome.{AllOrNothing}
use echolist_backend.Database.Types.{NoteRow}
use echolist_backend.Database.Notes
use echolist_backend.Database.Notes.{retitled, note_with_id}
use echolist_backend.Database.Notes.Laws.{note_at, is_some, update_note_lem}
use echolist_backend.Service.{World, Handler}
use echolist_backend.Service.Steps.{done-ok, there-ok, found-ok, get_note-row}
use echolist_backend.Notes.Preview.{compute_preview}
use echolist_backend.Notes.Server.{
  PbNote, UpdateNoteRequest, note_path, row_path, mod_time, note_of, rename_if_moved,
  written_or_renamed_back, updated_or_renamed_back, update_note, get_note,
}
use echolist_backend.Notes.Server.Reading.{quiet_world, shown, shown_content, get_note-Shown}

module _ (data_dir : Bytes) where
  -- The file stands at the new path, renamed or not, and the database is as it was.
  abbrev Moved : Bytes → Node → World → World → Type 0
  Moved new file w w' = (look w'.fs.disk new ≡ some file) × (w'.conn ≡ w.conn)

  renamed-Moved :
      (new : Bytes) (file : Node) (w w' : World) (b : Bool) (r : Result IoError (Unit {0}) × Fs)
      → Ends (λ _ s'. look s'.disk new ≡ some file) (λ _ s'. s'.disk ≡ w.fs.disk) r
      → pure {E = ConnectError} true (record w { fs = r.1 }) ≡ (ok b, w')
      → r ≡ (ok tt, r.1)
      → Moved new file w w'
  renamed-Moved new file w w' b (ok u, s') e h g =
      let left = (pure-injective true b (record w { fs = s' }) w' h).1 in
      (ap (λ (v : World). look v.fs.disk new) (sym left) ∙ e, ap (λ (v : World). v.conn) (sym left))
  renamed-Moved new file w w' b (err x, s') e h g = ground arith

  rename_if_moved-Moved :
      (old new c : Bytes) (t : ℕ) (w w' : World) (b moved : Bool)
      → look w.fs.disk old ≡ some (regular c t)
      → str_eq new old ≡ b
      → rename_if_moved data_dir old new b w ≡ (ok moved, w')
      → Moved new (regular c t) w w'
  rename_if_moved-Moved old new c t w w' true moved file e h =
      let left = (pure-injective false moved w w' h).1 in
      (
        ap (λ (v : World). look v.fs.disk new) (sym left)
            ∙ ap (λ p. look w.fs.disk p) ((str_eq_iff new old).0 e)
            ∙ file,
        ap (λ (v : World). v.conn) (sym left),
      )
  rename_if_moved-Moved old new c t w w' false moved file e h =
      let r = rename old new w.fs in
      let (u, went, s) = there-ok _ _ r _ w w' moved h in
      renamed-Moved new (regular c t) w w' moved r (rename-file old new c t w.fs file) s went

module _ (data_dir : Bytes) {B : Type 0} where
  content-ok :
      (old new : Bytes) (was : Bool) (p : Result IoError (Unit {0}) × Fs) (f : Unit {0} → Handler B)
      (w w' : World) (b : B)
      → (written_or_renamed_back data_dir old new was p.0 >>= f) (record w { fs = p.1 })
        ≡ (ok b, w')
      → (p ≡ (ok tt, p.1)) × (f tt (record w { fs = p.1 }) ≡ (ok b, w'))
  content-ok old new was (ok u, s) f w w' b h = (refl, h)
  content-ok old new true (err e, s) f w w' b h = ground arith
  content-ok old new false (err e, s) f w w' b h = ground arith

  row-ok :
      (old new : Bytes) (was : Bool) (p : Result DbError (Unit {0}) × Conn)
      (f : Unit {0} → Handler B) (w w' : World) (b : B)
      → (updated_or_renamed_back data_dir old new was p.0 >>= f) (record w { conn = p.1 })
        ≡ (ok b, w')
      → (p ≡ (ok tt, p.1)) × (f tt (record w { conn = p.1 }) ≡ (ok b, w'))
  row-ok old new was (ok u, c) f w w' b h = (refl, h)
  row-ok old new was (err DbError.not_found, c) f w w' b h = ground arith
  row-ok old new true (err DbError.constraint, c) f w w' b h = ground arith
  row-ok old new false (err DbError.constraint, c) f w w' b h = ground arith
  row-ok old new true (err (fault e), c) f w w' b h = ground arith
  row-ok old new false (err (fault e), c) f w w' b h = ground arith

some-injective : (a b : NoteRow) → some a ≡ some b → a ≡ b
some-injective a b h = ground arith

at_itself : (p : Bytes) (a b v : Option Node) → v ≡ (if str_eq p p then a else b) → v ≡ a
at_itself p a b v h = ground (arith, str_eq_refl p)

find_first-id :
    (id : Bytes) (row : NoteRow) (ns : List NoteRow)
    → find_first (note_with_id id) ns ≡ some row
    → row.id ≡ id
find_first-id id row [] h = ground arith
find_first-id id row (m ∷ ns) h = ground (arith, find_first-id id row ns, str_eq_iff m.id id)

updated-row :
    (id title preview : Bytes) (time : ℕ) (row : NoteRow) (c : Conn)
    (p : Result DbError (Unit {0}) × Conn)
    → p ≡ (ok tt, p.1)
    → note_at id c.tables ≡ some row
    → row.id ≡ id
    → AllOrNothing
        (λ _ t'.
          (is_some (note_at id c.tables) ≡ true)
          × (note_at id t' ≡ elim (note_at id c.tables) [
            | none ↦ none
            | some n ↦ some (retitled id title preview time n)
          ]))
        c.tables
        p
    → note_at id p.1.tables
      ≡ some (record row { title = title; preview = preview; updated_at = time })
updated-row id title preview time row c (ok u, c') h here same k = ground (arith, str_eq_refl id)
updated-row id title preview time row c (err e, c') h here same k = ground arith

module _ (data_dir : Bytes) where
  abbrev new_row : UpdateNoteRequest → NoteRow → ℕ → NoteRow
  new_row req row time = record row {
    title = req.title;
    preview = compute_preview req.content;
    updated_at = time;
  }

  -- What a successful UpdateNote has stored.
  abbrev Rewritten : UpdateNoteRequest → NoteRow → PbNote → World → Type 0
  Rewritten req row n w' =
      (time : ℕ) × (since : ℕ) × (note_of (new_row req row time) req.content ≡ n)
      × (look w'.fs.disk (row_path data_dir (new_row req row time))
          ≡ some (regular req.content since))
      × (note_at req.id w'.conn.tables ≡ some (new_row req row time))

  update_note-Rewritten :
      (req : UpdateNoteRequest) (row : NoteRow) (old : Bytes) (t : ℕ) (w w' : World) (n : PbNote)
      → note_at req.id w.conn.tables ≡ some row
      → look w.fs.disk (row_path data_dir row) ≡ some (regular old t)
      → update_note data_dir req w ≡ (ok n, w')
      → Rewritten req row n w'
  unfolding update_note row_path
  update_note-Rewritten req row old t w w' n there file h =
      let (u1, h1, s1) = proceed-inverse _ (validate_uuid_v4 req.id) w w' n h in
      let (u2, h2, s2) = proceed-inverse _ (validate_name req.title) w w' n s1 in
      let (u3, h3, s3) =
        proceed-inverse _ (validate_content_length req.content max_note_content_bytes) w w' n s2 in
      let g = Notes.get_note req.id w.conn in
      let (row', got, s4) = found-ok _ _ g _ w w' n s3 in
      let (here, tables) = get_note-row req.id row' w.conn g.1 got in
      let path = join data_dir (note_path row'.parent_dir row'.title row'.id) in
      let new = join data_dir (note_path row'.parent_dir req.title row'.id) in
      let w1 = record w { conn = g.1 } in
      let (node, stated, s5) = there-ok _ _ (stat path w.fs) _ w1 w' n s4 in
      let w2 = record w1 { fs = (stat path w.fs).1 } in
      let (moved, w3, went, s6) =
        >>=-InTurn (rename_if_moved data_dir path new (str_eq new path)) _ w2 w' n s5 in
      let p = write_atomically new req.content w3.fs in
      let (written, s7) = content-ok data_dir path new moved p _ w3 w' n s6 in
      let w4 = record w3 { fs = p.1 } in
      let (info, stated', s8) = done-ok _ (stat new p.1) _ w4 w' n s7 in
      let w5 = record w4 { fs = (stat new p.1).1 } in
      let time = mod_time info in
      let q = Notes.update_note req.id req.title (compute_preview req.content) time w3.conn in
      let (updated, s9) = row-ok data_dir path new moved q _ w5 w' n s8 in
      let (same, left) = pure-injective _ n (record w5 { conn = q.1 }) w' s9 in
      let row_is_row' = some-injective row row' (sym there ∙ here) in
      let file' =
        subst (λ v. look w.fs.disk (row_path data_dir v) ≡ some (regular old t)) row_is_row' file in
      let seen = ends-ok _ _ (stat path w.fs) node (stat path w.fs).1 stated (stat_lem path w.fs) in
      let in_place =
        rename_if_moved-Moved data_dir path new old t w2 w3 (str_eq new path) moved
          (ap (λ d. look d path) seen.0.1 ∙ file') refl went in
      let whole = ends-ok _ _ p tt p.1 written (
        write_atomically_lem new req.content old new t (regular old t) w3.fs in_place.0
          in_place.0) in
      let kept = ends-ok _ _ (stat new p.1) info (stat new p.1).1 stated' (stat_lem new p.1) in
      let id = find_first-id req.id row' w.conn.tables.notes here in
      let row_there =
        ap (λ (c : Conn). note_at req.id c.tables) in_place.1
        ∙ ap (λ v. note_at req.id v) tables
        ∙ here in
      let row_now =
        updated-row req.id req.title (compute_preview req.content) time row' w3.conn q updated
          row_there id
          (update_note_lem req.id req.title (compute_preview req.content) time w3.conn req.id) in
      subst (λ v. Rewritten req v n w') (sym row_is_row')
        (
          time,
          w3.fs.now,
          ap
                (λ i. record {
                  id = i;
                  title = req.title;
                  content = req.content;
                  updated_at = time;
                  parent_dir = row'.parent_dir;
                })
                id
              ∙ same,
          ap (λ (v : World). look v.fs.disk new) (sym left)
              ∙ ap (λ d. look d new) kept.0.1
              ∙ at_itself new _ _ _ whole,
          ap (λ (v : World). note_at req.id v.conn.tables) (sym left) ∙ row_now,
        )

  -- If the file of the note is there, then after a successful UpdateNote, whatever calls failed in
  -- it, GetNote with the id returns the response, when no call fails in it: the new title and
  -- content of the request, in the directory of the row, whether the file was renamed or not.
  pub update_note-then_get_note :
      (req : UpdateNoteRequest) (row : NoteRow) (old : Bytes) (t : ℕ) (w w' : World) (n : PbNote)
      → validate_uuid_v4 req.id ≡ ok tt
      → note_at req.id w.conn.tables ≡ some row
      → look w.fs.disk (row_path data_dir row) ≡ some (regular old t)
      → update_note data_dir req w ≡ (ok n, w')
      → (get_note data_dir req.id (quiet_world w') ≡ (ok n, quiet_world w'))
        × (n.title ≡ req.title)
        × (n.content ≡ req.content)
        × (n.parent_dir ≡ row.parent_dir)
  update_note-then_get_note req row old t w w' n valid there file h =
      let (time, since, same, content, now) =
        update_note-Rewritten req row old t w w' n there file h in
      let read =
        get_note-Shown data_dir req.id w' valid
        ∙ ap (λ o. (shown data_dir w'.fs.disk o, quiet_world w')) now
        ∙ ap (λ o. (shown_content data_dir (new_row req row time) o, quiet_world w')) content in
      subst
        (λ (v : PbNote).
          (get_note data_dir req.id (quiet_world w') ≡ (ok v, quiet_world w'))
          × (v.title ≡ req.title)
          × (v.content ≡ req.content)
          × (v.parent_dir ≡ row.parent_dir))
        same (read, refl, refl, refl)
