-- ===== src/File/Server/Deleting.antt =====
-- DeleteFolder of file/delete_folder.go
use echolist_backend.Base.{
  Bool, none, [], ◌∷◌, if◌then◌else◌, Bytes, ◌≡◌, refl, sym, ap, ◌∙◌, arith,
}
use echolist_backend.Base.Action.{Result, ok, err, proceed-inverse, pure-injective, ◌>>=◌}
use mathlib.Core.Path.{subst}
use echolist_backend.Base.Triples.{ends-ok}
use echolist_backend.Common.Errors.{ConnectError, Message}
use echolist_backend.Common.Names.{require_dir}
use echolist_backend.Common.Paths.{Os, validate_path}
use echolist_backend.Common.Disk.{Disk, Fs, IoError, look}
use echolist_backend.Common.Disk.Folders.{inside, remove_all}
use echolist_backend.Common.Disk.Folders.Calls.{remove_all_lem}
use echolist_backend.Database.Conn.{Conn, DbError}
use echolist_backend.Database.Conn.Outcome.{OnlyFaults}
use echolist_backend.Database.Folders
use echolist_backend.Database.Folders.Effects.{within, Emptied, delete_by_parent_dir_exact}
use echolist_backend.Service.{World, Handler, done_or, valid_path, required_dir}
use echolist_backend.Service.Steps.{got-ok}
use echolist_backend.File.Server.{path_or_error, delete_folder}

pub named-ok :
    {B : Type 0} (path : Bytes) (f : Unit {0} → Handler B) (w w' : World) (b : B)
    → (path_or_error path >>= f) w ≡ (ok b, w')
    → f tt w ≡ (ok b, w')
named-ok [] f w w' b h = ground arith
named-ok (c ∷ s) f w w' b h = h

finished-ok :
    (m : Message) (p : Result IoError (Unit {0}) × Fs) (w w' : World)
    → done_or m p.0 (record w { fs = p.1 }) ≡ (ok tt, w')
    → (p ≡ (ok tt, p.1)) × (record w { fs = p.1 } ≡ w')
finished-ok m (ok u, s) w w' h =
    (refl, (pure-injective {E = ConnectError} tt tt (record w { fs = s }) w' h).1)
finished-ok m (err e, s) w w' h = ground arith

emptied :
    (p : Result DbError (Unit {0}) × Conn) (c : Conn) (test : Bytes → Bool)
    → p ≡ (ok tt, p.1)
    → OnlyFaults (λ _ t'. Emptied test c.tables t') c p
    → Emptied test c.tables p.1.tables
emptied (ok u, c') c test h k = k
emptied (err e, c') c test h k = ground arith

-- A successful DeleteFolder, on a path that ValidatePath accepts, leaves nothing on the disk at
-- that folder or below it and everything else as it was; in the database exactly the notes and
-- task lists of that folder and of the folders below it, the case of ASCII letters aside, are gone, and
-- with the lists their tasks.
pub delete_folder_exact :
    (os : Disk → Os) (data_dir folder_path q : Bytes) (w w' : World)
    → delete_folder os data_dir folder_path w ≡ (ok tt, w')
    → (target : Bytes) × (validate_path (os w.fs.disk) data_dir folder_path ≡ ok target)
      × (look w'.fs.disk q ≡ (if inside target q then none else look w.fs.disk q))
      × Emptied (within folder_path) w.conn.tables w'.conn.tables
unfolding delete_folder valid_path required_dir
delete_folder_exact os data_dir folder_path q w w' h =
    let s1 = named-ok folder_path _ w w' tt h in
    let (target, h2, s2) =
      proceed-inverse _ (validate_path (os w.fs.disk) data_dir folder_path) w w' tt s1 in
    let (u3, h3, s3) = proceed-inverse _ (require_dir ((os w.fs.disk).stat target)) w w' tt s2 in
    let d = Folders.delete_by_parent_dir folder_path w.conn in
    let (u4, done, s4) = got-ok _ d _ w w' tt s3 in
    let w1 = record w { conn = d.1 } in
    let r = remove_all target w.fs in
    let (gone, left) = finished-ok _ r w1 w' s4 in
    (
      target,
      h2,
      ap (λ (v : World). look v.fs.disk q) (sym left)
          ∙ (ends-ok _ _ r tt r.1 gone (remove_all_lem target q w.fs)).0,
      subst (λ (v : World). Emptied (within folder_path) w.conn.tables v.conn.tables) left
          (emptied d w.conn (within folder_path) done
            (delete_by_parent_dir_exact folder_path w.conn)),
    )
