-- ===== src/File/Server/Creating.antt =====
-- CreateFolder of file/create_folder.go
use echolist_backend.Base.{none, some, if◌then◌else◌, Bytes, str_eq, ◌≡◌, sym, ap, ◌∙◌, arith}
use echolist_backend.Base.Action.{Result, ok, err, proceed-inverse, pure-injective, ◌>>=◌}
use echolist_backend.Base.Triples.{ends-ok, ends-both, ends-map}
use echolist_backend.Common.Filepath.{join}
use echolist_backend.Common.Names.{validate_name, require_dir}
use echolist_backend.Common.Paths.{Os, validate_parent_dir}
use echolist_backend.Common.Disk.{Node, folder, Disk, Fs, IoError, look, stat}
use echolist_backend.Common.Disk.Calls.{stat_lem}
use echolist_backend.Common.Disk.Folders.{mkdir}
use echolist_backend.Common.Disk.Folders.Calls.{mkdir_lem}
use echolist_backend.Service.{World, Handler, valid_parent_dir, required_dir}
use echolist_backend.Service.Steps.{done-ok}
use echolist_backend.File.Server.{Folder, free_or_error, create_folder}

free-ok :
    {B : Type 0} (p : Result IoError Node × Fs) (d : Disk) (f : Unit {0} → Handler B) (w w' : World)
    (b : B)
    → p.1.disk ≡ d
    → (free_or_error p.0 >>= f) (record w { fs = p.1 }) ≡ (ok b, w')
    → (p.1.disk ≡ d) × (f tt (record w { fs = p.1 }) ≡ (ok b, w'))
free-ok (ok n, s) d f w w' b e h = ground arith
free-ok (err x, s) d f w w' b e h = (e, h)

pub stat-disk : (p : Bytes) (s : Fs) → (stat p s).1.disk ≡ s.disk
stat-disk p s =
    ends-both (λ s'. s'.disk ≡ s.disk) (stat p s)
      (ends-map _ (λ _ s'. s'.disk ≡ s.disk) (stat p s) (λ n s' h. h.0.1) (λ e s' h. h.0)
        (stat_lem p s))

-- A successful CreateFolder has found the name free in a directory that ValidateParentDir accepts;
-- the new folder stands there, every other path shows what it did, and the database is as it was.
pub create_folder_exact :
    (os : Disk → Os) (data_dir parent name q : Bytes) (w w' : World) (f : Folder)
    → create_folder os data_dir parent name w ≡ (ok f, w')
    → (parent_dir : Bytes) × (validate_parent_dir (os w.fs.disk) data_dir parent ≡ ok parent_dir)
      × (look w.fs.disk (join parent_dir name) ≡ none)
      × (look w'.fs.disk q
          ≡ (if str_eq (join parent_dir name) q then some folder else look w.fs.disk q))
      × (w'.conn ≡ w.conn)
unfolding create_folder valid_parent_dir required_dir
create_folder_exact os data_dir parent name q w w' f h =
    let (u1, h1, s1) = proceed-inverse _ (validate_name name) w w' f h in
    let (d, h2, s2) =
      proceed-inverse _ (validate_parent_dir (os w.fs.disk) data_dir parent) w w' f s1 in
    let (u3, h3, s3) = proceed-inverse _ (require_dir ((os w.fs.disk).stat d)) w w' f s2 in
    let path = join d name in
    let (same, s4) = free-ok (stat path w.fs) w.fs.disk _ w w' f (stat-disk path w.fs) s3 in
    let s = (stat path w.fs).1 in
    let w1 = record w { fs = s } in
    let (u5, made, s5) = done-ok _ (mkdir path s) _ w1 w' f s4 in
    let left = (pure-injective _ f (record w1 { fs = (mkdir path s).1 }) w' s5).1 in
    let there = ends-ok _ _ (mkdir path s) tt (mkdir path s).1 made (mkdir_lem path q s) in
    (
      d,
      h2,
      ap (λ v. look v path) (sym same) ∙ there.0.0,
      ap (λ (v : World). look v.fs.disk q) (sym left)
          ∙ there.0.1
          ∙ ap (λ v. if str_eq path q then some folder else look v q) same,
      ap (λ (v : World). v.conn) (sym left),
    )
