-- ===== src/File/Server/Updating.antt =====
-- UpdateFolder of file/update_folder.go
use mathlib.Core.Path.{subst}
use echolist_backend.Base.{
  Bool, true, false, none, some, ◌++◌, Bool-cases, ◌⊎◌, inl, inr, Bytes, bytes, str_eq, ◌≡◌, refl,
  sym, ap, ◌∙◌, arith,
}
use echolist_backend.Base.Action.{
  Result, ok, err, proceed-inverse, pure-injective, >>=-InTurn, ◌>>=◌,
}
use echolist_backend.Base.Triples.{ends-ok}
use echolist_backend.Common.Errors.{ConnectError}
use echolist_backend.Common.Filepath.{join, dir, base}
use echolist_backend.Common.Names.{validate_name, require_dir}
use echolist_backend.Common.Paths.{Os, validate_path}
use echolist_backend.Common.Disk.{
  Node, folder, Disk, Fs, IoError, look, moved_path, move_all, stat, rename,
}
use echolist_backend.Common.Disk.Folders.{inside}
use echolist_backend.Common.Disk.Folders.Moving.{
  IsFree, look-move_all, look-move_all_vacated, rename-folder,
}
use echolist_backend.Database.Conn.{Conn, DbError}
use echolist_backend.Database.Conn.Outcome.{OnlyFaults}
use echolist_backend.Database.Folders
use echolist_backend.Database.Folders.Prefix.{starts_with_fold}
use echolist_backend.Database.Folders.Effects.{IsAscii, Moved, relocated, rename_parent_dir_exact}
use echolist_backend.Service.{World, Handler, valid_path, required_dir}
use echolist_backend.Service.Steps.{done-ok}
use echolist_backend.File.Server.{
  Folder, free_or_error, free_if_renamed, moved_or_renamed_back, new_rel_path, update_folder,
}
use echolist_backend.File.Server.Creating.{stat-disk}
use echolist_backend.File.Server.Deleting.{named-ok}

-- The test for a sibling has changed nothing.
abbrev Looked : World → World → Type 0
Looked w w' = (w'.fs.disk ≡ w.fs.disk) × (w'.conn ≡ w.conn)

free_or_error-Looked :
    (p : Result IoError Node × Fs) (w w' : World)
    → p.1.disk ≡ w.fs.disk
    → free_or_error p.0 (record w { fs = p.1 }) ≡ (ok tt, w')
    → Looked w w'
free_or_error-Looked (ok n, s) w w' e h = ground arith
free_or_error-Looked (err x, s) w w' e h =
    let left = (pure-injective {E = ConnectError} tt tt (record w { fs = s }) w' h).1 in
    (ap (λ (v : World). v.fs.disk) (sym left) ∙ e, ap (λ (v : World). v.conn) (sym left))

free_if_renamed-Looked :
    (path : Bytes) (b : Bool) (w w' : World) → free_if_renamed path b w ≡ (ok tt, w') → Looked w w'
free_if_renamed-Looked path true w w' h =
    let left = (pure-injective {E = ConnectError} tt tt w w' h).1 in
    (ap (λ (v : World). v.fs.disk) (sym left), ap (λ (v : World). v.conn) (sym left))
free_if_renamed-Looked path false w w' h =
    free_or_error-Looked (stat path w.fs) w w' (stat-disk path w.fs) h

rows-ok :
    {B : Type 0} (old new : Bytes) (p : Result DbError (Unit {0}) × Conn) (f : Unit {0} → Handler B)
    (w w' : World) (b : B)
    → (moved_or_renamed_back old new p.0 >>= f) (record w { conn = p.1 }) ≡ (ok b, w')
    → (p ≡ (ok tt, p.1)) × (f tt (record w { conn = p.1 }) ≡ (ok b, w'))
rows-ok old new (ok u, c) f w w' b h = (refl, h)
rows-ok old new (err e, c) f w w' b h = ground arith

relocated_rows :
    (p : Result DbError (Unit {0}) × Conn) (c : Conn) (f : Bytes → Bytes)
    → p ≡ (ok tt, p.1)
    → OnlyFaults (λ _ t'. Moved f c.tables t') c p
    → Moved f c.tables p.1.tables
relocated_rows (ok u, c') c f h k = k
relocated_rows (err e, c') c f h k = ground arith

-- What a successful UpdateFolder has got from its calls.
record Succeeded (os : Disk → Os) (data_dir folder_path new_name : Bytes) (w w' : World)
    : Type 0 where
  old : Bytes
  fs : Fs
  valid : validate_path (os w.fs.disk) data_dir folder_path ≡ ok old
  same_disk : fs.disk ≡ w.fs.disk
  renamed :
      rename old (join (dir old) new_name) fs ≡ (ok tt, (rename old (join (dir old) new_name) fs).1)
  left_disk : w'.fs.disk ≡ (rename old (join (dir old) new_name) fs).1.disk
  rows :
      let p = Folders.rename_parent_dir folder_path (new_rel_path folder_path new_name) w.conn in
      (p ≡ (ok tt, p.1)) × (w'.conn ≡ p.1)

-- The rows are moved on the connection as it was.
left_rows :
    (folder_path new_rel : Bytes) (c c' : Conn) (w' : World)
    → c' ≡ c
    → let p = Folders.rename_parent_dir folder_path new_rel c' in
      (p ≡ (ok tt, p.1)) × (w'.conn ≡ p.1)
      → let p = Folders.rename_parent_dir folder_path new_rel c in
        (p ≡ (ok tt, p.1)) × (w'.conn ≡ p.1)
left_rows folder_path new_rel c c' w' e h =
    subst
      (λ x.
        let p = Folders.rename_parent_dir folder_path new_rel x in
        (p ≡ (ok tt, p.1)) × (w'.conn ≡ p.1))
      e h

update_folder-Succeeded :
    (os : Disk → Os) (data_dir folder_path new_name : Bytes) (w w' : World) (f : Folder)
    → update_folder os data_dir folder_path new_name w ≡ (ok f, w')
    → Succeeded os data_dir folder_path new_name w w'
unfolding update_folder valid_path required_dir
update_folder-Succeeded os data_dir folder_path new_name w w' f h =
    let (u1, h1, s1) = proceed-inverse _ (validate_name new_name) w w' f h in
    let s2 = named-ok folder_path _ w w' f s1 in
    let (old, valid, s3) =
      proceed-inverse _ (validate_path (os w.fs.disk) data_dir folder_path) w w' f s2 in
    let (u4, h4, s4) = proceed-inverse _ (require_dir ((os w.fs.disk).stat old)) w w' f s3 in
    let new = join (dir old) new_name in
    let (u5, w1, tested, s5) =
      >>=-InTurn (free_if_renamed new (str_eq new_name (base old))) _ w w' f s4 in
    let (same, conn) = free_if_renamed-Looked new (str_eq new_name (base old)) w w1 tested in
    let (u6, renamed, s6) = done-ok _ (rename old new w1.fs) _ w1 w' f s5 in
    let r = rename old new w1.fs in
    let w2 = record w1 { fs = r.1 } in
    let p = Folders.rename_parent_dir folder_path (new_rel_path folder_path new_name) w1.conn in
    let (rows, s7) = rows-ok old new p _ w2 w' f s6 in
    let left = (pure-injective _ f (record w2 { conn = p.1 }) w' s7).1 in
    record {
      old = old;
      fs = w1.fs;
      valid = valid;
      same_disk = same;
      renamed = renamed;
      left_disk = ap (λ (v : World). v.fs.disk) (sym left);
      rows =
          left_rows folder_path (new_rel_path folder_path new_name) w.conn w1.conn w' conn
            (rows, ap (λ (v : World). v.conn) (sym left));
    }

ok-injective : {a b : Bytes} → ◌≡◌ {A = Result ConnectError Bytes} (ok a) (ok b) → a ≡ b
ok-injective e = ground (arith, e)

-- A successful UpdateFolder, if the path is resolved to a folder and nothing was at the new path or
-- below it, moves the folder on the disk: whatever was at a path not at or below the new one is at
-- the same place under the new path if it was the folder or in it, and where it was otherwise; and
-- such a path has nothing left if it was the folder's or in it.
pub update_folder_disk :
    (os : Disk → Os) (data_dir folder_path new_name old q : Bytes) (w w' : World) (f : Folder)
    → validate_path (os w.fs.disk) data_dir folder_path ≡ ok old
    → look w.fs.disk old ≡ some folder
    → IsFree (join (dir old) new_name) w.fs.disk
    → inside (join (dir old) new_name) q ≡ false
    → update_folder os data_dir folder_path new_name w ≡ (ok f, w')
    → (look w'.fs.disk (moved_path old (join (dir old) new_name) q) ≡ look w.fs.disk q)
      × ((inside old q ≡ false) ⊎ (look w'.fs.disk q ≡ none))
update_folder_disk os data_dir folder_path new_name old q w w' f valid there free apart h =
    let s = update_folder-Succeeded os data_dir folder_path new_name w w' f h in
    let new = join (dir old) new_name in
    let moved = disk_moved s in
    (
      ap (λ d. look d (moved_path old new q)) moved ∙ look-move_all old new q w.fs.disk apart free,
      elim (Bool-cases (inside old q)) [
        | inl was ↦
            inr (ap (λ d. look d q) moved ∙ look-move_all_vacated old new q w.fs.disk was apart)
        | inr out ↦ inl out
      ],
    )
  where
    renamed_at :
        (s : Succeeded os data_dir folder_path new_name w w')
        → s.old ≡ old
        → w'.fs.disk ≡ move_all old (join (dir old) new_name) s.fs.disk
    renamed_at s e =
        s.left_disk
        ∙ ends-ok _ _ (rename s.old (join (dir s.old) new_name) s.fs) tt
            (rename s.old (join (dir s.old) new_name) s.fs).1 s.renamed
            (rename-folder s.old (join (dir s.old) new_name) s.fs
              (ap (λ d. look d s.old) s.same_disk ∙ ap (look w.fs.disk) e ∙ there))
        ∙ ap (λ o. move_all o (join (dir o) new_name) s.fs.disk) e

    disk_moved :
        Succeeded os data_dir folder_path new_name w w'
        → w'.fs.disk ≡ move_all old (join (dir old) new_name) w.fs.disk
    disk_moved s =
        renamed_at s (ok-injective (sym s.valid ∙ valid))
        ∙ ap (move_all old (join (dir old) new_name)) s.same_disk

-- A successful UpdateFolder, if the path is ASCII and the new one does not lie below it, moves
-- exactly the notes and task lists of the folder and of the folders below it (the case of ASCII
-- letters aside) to the same place under the new path.
pub update_folder_rows :
    (os : Disk → Os) (data_dir folder_path new_name : Bytes) (w w' : World) (f : Folder)
    → IsAscii folder_path
    → starts_with_fold (folder_path ++ bytes "/") (new_rel_path folder_path new_name) ≡ false
    → update_folder os data_dir folder_path new_name w ≡ (ok f, w')
    → Moved (relocated folder_path (new_rel_path folder_path new_name)) w.conn.tables w'.conn.tables
update_folder_rows os data_dir folder_path new_name w w' f ascii outside h =
    let new_rel = new_rel_path folder_path new_name in
    let (rows, left) = (update_folder-Succeeded os data_dir folder_path new_name w w' f h).rows in
    subst (λ (c : Conn). Moved (relocated folder_path new_rel) w.conn.tables c.tables) (sym left)
      (relocated_rows (Folders.rename_parent_dir folder_path new_rel w.conn) w.conn
        (relocated folder_path new_rel) rows
        (rename_parent_dir_exact folder_path new_rel w.conn ascii outside))
