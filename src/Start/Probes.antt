-- ===== src/Start/Probes.antt =====
-- The probe of readiness of main.go.
use echolist_backend.Base.{
  ℕ, Bool, true, false, ◌&&◌, some, List, [], ◌∷◌, if◌then◌else◌, Bytes, bytes, Bool-cases, inl,
  inr, ◌≡◌, refl, ap, ◌∙◌, arith,
}
use echolist_backend.Base.Action.{Result, ok, err}
use echolist_backend.Base.Triples.{ends-both, ends-map}
use echolist_backend.Common.Disk.{Node, Fs, IoError, look, stat, create_temp, flush}
use echolist_backend.Common.Disk.Calls.{
  Leaves, Beside, create_temp_lem, flush_lem, remove_lem, stat_lem,
}
use echolist_backend.Database.Conn.{Conn, DbError}
use echolist_backend.Database.Schema.{health_check}
use echolist_backend.Auth.Users.{User, has_users}
use echolist_backend.Service.{World}
use echolist_backend.Start.{
  Check, db_failed, data_dir_failed, failed_check, probed, probe_write, with_users, status_of,
  healthz,
}

-- The probe file is a new one, and what was there stays.
probed-kept :
    (q : Bytes) (n : Node) (s : Fs) (p : Result IoError Bytes × Fs)
    → look s.disk q ≡ some n
    → Leaves (λ name d. Beside s.disk name d) (λ d. d ≡ s.disk) s.now p
    → look (probed p.0 p.1).1.disk q ≡ some n
probed-kept q n s (ok name, s') h (b, t) =
    let apart = b q n h in
    (remove_lem name q (flush s').1 apart.0).0 ∙ ap (λ d. look d q) (flush_lem s').0 ∙ apart.1 ∙ h
probed-kept q n s (err e, s') h (b, t) = ap (λ d. look d q) b ∙ h

probe_write-kept :
    (dir q : Bytes) (n : Node) (s : Fs) (cs : List Check)
    → look s.disk q ≡ some n
    → look (probe_write dir cs s).1.disk q ≡ some n
probe_write-kept dir q n s [] h =
    probed-kept q n s (create_temp dir (bytes ".healthz_probe_") s) h
      (create_temp_lem dir (bytes ".healthz_probe_") s)
probe_write-kept dir q n s (c ∷ cs) h = h

stat-kept : (dir q : Bytes) (s : Fs) → look (stat dir s).1.disk q ≡ look s.disk q
stat-kept dir q s =
    ends-both (λ s'. look s'.disk q ≡ look s.disk q) (stat dir s)
      (ends-map _ (λ _ s'. look s'.disk q ≡ look s.disk q) (stat dir s)
        (λ n s' h. ap (λ d. look d q) h.0.1) (λ e s' h. ap (λ d. look d q) h.0) (stat_lem dir s))

abbrev pub is_ok : {E A : Type 0} → Result E A → Bool
is_ok (ok a) = true
is_ok (err e) = false

abbrev pub ready_if : Bool → ℕ
ready_if b = if b then 200 else 503

probed-status :
    (users : List User) (p : Result IoError Bytes) (s : Fs)
    → status_of (with_users users (probed p s).0) ≡ ready_if (has_users users && is_ok p)
probed-status users (ok name) s = elim (Bool-cases (has_users users)) [
  | inl h ↦ ground arith
  | inr h ↦ ground arith
]
probed-status users (err e) s = ground arith

healthz-status :
    {A B : Type 0} (dir : Bytes) (users : List User) (h : Result DbError A) (r : Result IoError B)
    (s : Fs)
    → status_of (
        with_users users
          (probe_write dir (failed_check db_failed h (failed_check data_dir_failed r [])) s).0)
      ≡ ready_if (
          is_ok h
          && (is_ok r
              && (has_users users && is_ok (create_temp dir (bytes ".healthz_probe_") s).0)))
healthz-status dir users (ok a) (ok b) s =
    let p = create_temp dir (bytes ".healthz_probe_") s in probed-status users p.0 p.1
healthz-status dir users (ok a) (err y) s = refl
healthz-status dir users (err x) (ok b) s = refl
healthz-status dir users (err x) (err y) s = refl

same_tables : (c : Conn) → (health_check c).1.tables ≡ c.tables
unfolding health_check
same_tables c = ground arith

-- The probe answers 200 exactly if the database answers, the data directory can be stat'ed, some
-- user is loaded and the probe file could be created, and 503 otherwise; whatever fails, every file
-- and directory that was there stays as it was, and so do the tables.
pub healthz_lem :
    (dir : Bytes) (users : List User) (q : Bytes) (n : Node) (w : World)
    → look w.fs.disk q ≡ some n
    → ((healthz dir users w).0.0
        ≡ ready_if (
            is_ok (health_check w.conn).0
            && (is_ok (stat dir w.fs).0
                && (has_users users
                    && is_ok (create_temp dir (bytes ".healthz_probe_") (stat dir w.fs).1).0))))
      × (look (healthz dir users w).1.fs.disk q ≡ some n)
      × ((healthz dir users w).1.conn.tables ≡ w.conn.tables)
unfolding healthz
healthz_lem dir users q n w h = (
  healthz-status dir users (health_check w.conn).0 (stat dir w.fs).0 (stat dir w.fs).1,
  probe_write-kept dir q n (stat dir w.fs).1
      (failed_check db_failed (health_check w.conn).0
        (failed_check data_dir_failed (stat dir w.fs).0 []))
      (stat-kept dir q w.fs ∙ h),
  same_tables w.conn,
)
