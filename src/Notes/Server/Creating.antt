-- ===== src/Notes/Server/Creating.antt =====
-- CreateNote of notes/create_note.go, and GetNote after it.
use echolist_backend.Base.{
  ℕ, ◌+◌, some, if◌then◌else◌, Bytes, str_eq, str_eq_refl, ◌≡◌, refl, sym, ap, ◌∙◌, arith,
}
use mathlib.Core.Path.{subst}
use echolist_backend.Base.Action.{Result, ok, err, proceed-inverse, pure-injective, ◌>>=◌}
use echolist_backend.Base.Triples.{ends-ok}
use echolist_backend.Common.Errors.{Message}
use echolist_backend.Common.Names.{
  validate_name, validate_content_length, max_note_content_bytes, require_dir,
}
use echolist_backend.Common.Paths.{Os, validate_parent_dir}
use echolist_backend.Common.Uuid.{validate_uuid_v4}
use echolist_backend.Common.Filepath.{join}
use echolist_backend.Common.Disk.{
  Node, regular, Disk, Fs, IoError, exist, no_entry, other, look, stat,
}
use echolist_backend.Common.Disk.Calls.{stat_lem}
use echolist_backend.Common.AtomicWrite.{create_exclusive}
use echolist_backend.Common.AtomicWrite.Promise.{create_exclusive-Whole}
use echolist_backend.Database.Conn.{Conn, DbError}
use echolist_backend.Database.Conn.Outcome.{AllOrNothing}
use echolist_backend.Database.Types.{InsertNoteParams}
use echolist_backend.Database.Notes
use echolist_backend.Database.Notes.Laws.{note_at, row_of, insert_note_lem}
use echolist_backend.Service.{World, Handler, done_or, valid_parent_dir, required_dir}
use echolist_backend.Notes.Preview.{compute_preview}
use echolist_backend.Notes.Server.{
  PbNote, CreateNoteRequest, note_path, row_path, mod_time, written_or_error, persisted_or_removed,
  create_note, get_note, note_of,
}
use echolist_backend.Notes.Server.Reading.{quiet_world, shown, shown_content, get_note-Shown}

module _ {B : Type 0} where
  written-ok :
      (p : Result IoError (Unit {0}) × Fs) (f : Unit {0} → Handler B) (w w' : World) (b : B)
      → (written_or_error p.0 >>= f) (record w { fs = p.1 }) ≡ (ok b, w')
      → (p ≡ (ok tt, p.1)) × (f tt (record w { fs = p.1 }) ≡ (ok b, w'))
  written-ok (ok u, s) f w w' b h = (refl, h)
  written-ok (err exist, s) f w w' b h = ground arith
  written-ok (err no_entry, s) f w w' b h = ground arith
  written-ok (err other, s) f w w' b h = ground arith

  done-ok :
      {A : Type 0} (m : Message) (p : Result IoError A × Fs) (f : A → Handler B) (w w' : World)
      (b : B)
      → (done_or m p.0 >>= f) (record w { fs = p.1 }) ≡ (ok b, w')
      → (a : A) × (p ≡ (ok a, p.1)) × (f a (record w { fs = p.1 }) ≡ (ok b, w'))
  done-ok m (ok a, s) f w w' b h = (a, refl, h)
  done-ok m (err e, s) f w w' b h = ground arith

  persisted-ok :
      (path : Bytes) (p : Result DbError (Unit {0}) × Conn) (f : Unit {0} → Handler B)
      (w w' : World) (b : B)
      → (persisted_or_removed path p.0 >>= f) (record w { conn = p.1 }) ≡ (ok b, w')
      → (p ≡ (ok tt, p.1)) × (f tt (record w { conn = p.1 }) ≡ (ok b, w'))
  persisted-ok path (ok u, c) f w w' b h = (refl, h)
  persisted-ok path (err e, c) f w w' b h = ground arith

insert_note-ok :
    (params : InsertNoteParams) (p : Result DbError (Unit {0}) × Conn) (c : Conn)
    → p ≡ (ok tt, p.1)
    → AllOrNothing
        (λ _ t'. note_at params.id t' ≡ (
          if str_eq params.id params.id then some (row_of params) else note_at params.id c.tables))
        c.tables
        p
    → note_at params.id p.1.tables ≡ some (row_of params)
insert_note-ok params (ok u, c') c h k = ground (arith, str_eq_refl params.id)
insert_note-ok params (err e, c') c h k = ground arith

module _ (os : Disk → Os) (new_string : ℕ → Bytes) (data_dir : Bytes) where
  abbrev params_of : CreateNoteRequest → World → Node → InsertNoteParams
  params_of req w info = record {
    id = new_string w.issued;
    title = req.title;
    parent_dir = req.parent_dir;
    preview = compute_preview req.content;
    created_at = mod_time info;
    updated_at = mod_time info;
  }

  -- What a successful CreateNote has stored.
  abbrev Stored : CreateNoteRequest → World → PbNote → World → Type 0
  Stored req w n w' =
      (info : Node) × (note_of (row_of (params_of req w info)) req.content ≡ n)
      × (look w'.fs.disk (row_path data_dir (row_of (params_of req w info)))
          ≡ some (regular req.content w.fs.now))
      × (note_at (new_string w.issued) w'.conn.tables ≡ some (row_of (params_of req w info)))

  create_note-Stored :
      (req : CreateNoteRequest) (w w' : World) (n : PbNote)
      → create_note os new_string data_dir req w ≡ (ok n, w')
      → Stored req w n w'
  unfolding create_note valid_parent_dir required_dir row_path
  create_note-Stored req w w' n h =
      let (d, h1, s1) =
        proceed-inverse _ (validate_parent_dir (os w.fs.disk) data_dir req.parent_dir) w w' n h in
      let (u2, h2, s2) = proceed-inverse _ (validate_name req.title) w w' n s1 in
      let (u3, h3, s3) =
        proceed-inverse _ (validate_content_length req.content max_note_content_bytes) w w' n s2 in
      let (u4, h4, s4) = proceed-inverse _ (require_dir ((os w.fs.disk).stat d)) w w' n s3 in
      let w1 = record w { issued = w.issued + 1 } in
      let path = join data_dir (note_path req.parent_dir req.title (new_string w.issued)) in
      let p = create_exclusive path req.content w.fs in
      let (created, s5) = written-ok p _ w1 w' n s4 in
      let w2 = record w1 { fs = p.1 } in
      let (info, stated, s6) = done-ok _ (stat path p.1) _ w2 w' n s5 in
      let w3 = record w2 { fs = (stat path p.1).1 } in
      let q = Notes.insert_note (params_of req w info) w.conn in
      let (inserted, s7) = persisted-ok path q _ w3 w' n s6 in
      let (same, left) = pure-injective _ n (record w3 { conn = q.1 }) w' s7 in
      let whole = ends-ok _ _ p tt p.1 created (create_exclusive-Whole path req.content w.fs) in
      let read = ends-ok _ _ (stat path p.1) info (stat path p.1).1 stated (stat_lem path p.1) in
      let row =
        insert_note-ok (params_of req w info) q w.conn inserted
          (insert_note_lem (params_of req w info) w.conn (new_string w.issued)) in
      (
        info,
        same,
        ap (λ (v : World). look v.fs.disk path) (sym left)
            ∙ ap (λ d. look d path) read.0.1
            ∙ whole.1,
        ap (λ (v : World). note_at (new_string w.issued) v.conn.tables) (sym left) ∙ row,
      )

  -- After a successful CreateNote, whatever calls failed in it, and if uuid.NewString yields texts
  -- that ValidateUuidV4 accepts, GetNote with the id of the response returns that same response,
  -- when no call fails in it: the title, the content and the directory of the request.
  pub create_note-then_get_note :
      (req : CreateNoteRequest) (w w' : World) (n : PbNote)
      → ((i : ℕ) → validate_uuid_v4 (new_string i) ≡ ok tt)
      → create_note os new_string data_dir req w ≡ (ok n, w')
      → (get_note data_dir n.id (quiet_world w') ≡ (ok n, quiet_world w'))
        × (n.title ≡ req.title)
        × (n.content ≡ req.content)
        × (n.parent_dir ≡ req.parent_dir)
  create_note-then_get_note req w w' n valid h =
      let (info, same, file, row) = create_note-Stored req w w' n h in
      let read =
        get_note-Shown data_dir (new_string w.issued) w' (valid w.issued)
        ∙ ap (λ o. (shown data_dir w'.fs.disk o, quiet_world w')) row
        ∙ ap (λ o. (shown_content data_dir (row_of (params_of req w info)) o, quiet_world w'))
            file in
      subst
        (λ (v : PbNote).
          (get_note data_dir v.id (quiet_world w') ≡ (ok v, quiet_world w'))
          × (v.title ≡ req.title)
          × (v.content ≡ req.content)
          × (v.parent_dir ≡ req.parent_dir))
        same (read, refl, refl, refl)
