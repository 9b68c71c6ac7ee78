-- ===== src/Common/AtomicWrite/Promise.antt =====
-- File and CreateExclusive of common/atomicwrite.go against what they promise.
use echolist_backend.Base.{
  ℕ, false, Option, none, some, [], if◌then◌else◌, Bytes, str_eq, str_eq_refl, ◌≡◌, refl, ap, ◌∙◌,
  ◌⊎◌, inl, inr, arith,
}
use echolist_backend.Base.Action.{Result, ok, err, Action, pure, proceed, ◌>>◌, ignoring}
use echolist_backend.Base.Triples.{Ends, ends-map, ends-both}
use echolist_backend.Common.Disk.{Node, regular, Fs, IoError, look, flush, open_exclusive, remove}
use echolist_backend.Common.Disk.Calls.{
  Leaves, Same, remove_lem, remove_self, open_exclusive_lem, taken-differs, flush_lem,
}
use echolist_backend.Common.AtomicWrite.{atomic_write, write_atomically, create_exclusive}
use echolist_backend.Common.AtomicWrite.Outcome.{Before, Before-on, atomic_write-Replaced}

-- File is all or nothing: over an existing file, after a success the path has the whole new
-- content and after an error the old one, whatever failed and wherever the process stopped; every
-- other file or directory stays as it was.
pub write_atomically_lem :
    (path content old q : Bytes) (since : ℕ) (n : Node) (s : Fs)
    → look s.disk path ≡ some (regular old since)
    → look s.disk q ≡ some n
    → Ends
        (λ _ s'. look s'.disk q ≡ (if str_eq path q then some (regular content s.now) else some n))
        (λ _ s'. look s'.disk q ≡ some n)
        (write_atomically path content s)
unfolding write_atomically
write_atomically_lem path content old q since n s h g =
    (atomic_write-Replaced path old since q n s.now content (λ o. o ≡ some n) refl (pure tt)
        (λ s' b. b.at_q)).at
      s (record { at_path = h; at_q = g; clock = refl })

if_self : (p : Bytes) (a b v : Option Node) → v ≡ (if str_eq p p then a else b) → v ≡ a
if_self p a b v h = ground (arith, str_eq_refl p)

-- No file, or an empty one.
abbrev pub AbsentOrEmpty : ℕ → Option Node → Type 0
AbsentOrEmpty time o = (o ≡ none) ⊎ (o ≡ some (regular [] time))

removed-AbsentOrEmpty :
    (path : Bytes) (time : ℕ) (s : Fs)
    → look s.disk path ≡ some (regular [] time)
    → AbsentOrEmpty time (look (remove path s).1.disk path)
removed-AbsentOrEmpty path time s h = gone (remove path s) (remove_self path [] time s h)
  where
    gone :
        (r : Result IoError (Unit {0}) × Fs)
        → Ends (λ _ s'. look s'.disk path ≡ none) (λ _ s'. s'.disk ≡ s.disk) r
        → AbsentOrEmpty time (look r.1.disk path)
    gone (ok u, s') e = inl e
    gone (err x, s') e = inr (ap (λ d. look d path) e ∙ h)

module _ (path content : Bytes) where
  -- What follows the sentinel.
  abbrev filling : Unit {0} → Action Fs IoError (Unit {0})
  filling _ = ignoring flush >> atomic_write path content (remove path)

  filled :
      (q : Bytes) (n : Node) (time : ℕ) (K : Option Node → Type 0) (s : Fs)
      → look s.disk path ≡ some (regular [] time)
      → look s.disk q ≡ some n
      → s.now ≡ time
      → K (some n)
      → ((s' : Fs) → Before path [] time q n time s' → K (look (remove path s').1.disk q))
      → Ends
          (λ _ s'. look s'.disk q ≡ (if str_eq path q then some (regular content time) else some n))
          (λ _ s'. K (look s'.disk q))
          (filling tt s)
  filled q n time K s h g t k cleaned =
      (atomic_write-Replaced path [] time q n time content K k (remove path) cleaned).at (flush s).1
        (Before-on path [] time q n time s (flush s).1 (record { at_path = h; at_q = g; clock = t })
          (flush_lem s).0 (flush_lem s).1)

  opened-Whole :
      (s : Fs) (r : Result IoError (Unit {0}) × Fs)
      → Leaves
          (λ _ d. (look s.disk path ≡ none) × (look d path ≡ some (regular [] s.now)))
          (Same path s.disk)
          s.now
          r
      → Ends
          (λ _ s'. (look s.disk path ≡ none) × (look s'.disk path ≡ some (regular content s.now)))
          (λ _ s'. Same path s.disk s'.disk ⊎ AbsentOrEmpty s.now (look s'.disk path))
          (proceed filling r.0 r.1)
  opened-Whole s (ok u, s') ((a, h), t) =
      ends-map _ _ (filling tt s') (λ _ x e. (a, if_self path _ _ _ e)) (λ _ x e. inr e)
        (filled path (regular [] s.now) s.now (AbsentOrEmpty s.now) s' h h t (inr refl)
          (λ x b. removed-AbsentOrEmpty path s.now x b.at_path))
  opened-Whole s (err e, s') (h, t) = inl h

  opened-Others :
      (q : Bytes) (n : Node) (s : Fs) (r : Result IoError (Unit {0}) × Fs)
      → look s.disk q ≡ some n
      → Leaves
          (λ _ d.
            (look s.disk path ≡ none)
            × (look d q ≡ (if str_eq path q then some (regular [] s.now) else look s.disk q)))
          (Same q s.disk)
          s.now
          r
      → Leaves
          (λ _ d.
            (look s.disk path ≡ none)
            × (look d path
                ≡ (if str_eq path path then some (regular [] s.now) else look s.disk path)))
          (Same path s.disk)
          s.now
          r
      → look (proceed filling r.0 r.1).1.disk q ≡ some n
  opened-Others q n s (ok u, s') g ((a, h), t) ((a', h'), t') =
      let apart = taken-differs s.disk path q n a g in
      let kept : look s'.disk q ≡ some n = ground (arith, g, h, apart) in
      let here = if_self path _ _ _ h' in
      ends-both (λ x. look x.disk q ≡ some n) (filling tt s')
        (ends-map _ (λ _ x. look x.disk q ≡ some n) (filling tt s') (λ _ x e. elsewhere x apart e)
          (λ _ x e. e)
          (filled q n s.now (λ o. o ≡ some n) s' here kept t refl
            (λ x b. (remove_lem path q x apart).0 ∙ b.at_q)))
    where
      elsewhere :
          (x : Fs)
          → str_eq path q ≡ false
          → look x.disk q ≡ (if str_eq path q then some (regular content s.now) else some n)
          → look x.disk q ≡ some n
      elsewhere x apart e = ground arith
  opened-Others q n s (err e, s') g (h, t) w = h ∙ g

-- What CreateExclusive leaves at the path of the new file.
abbrev pub WholeOrNone : Bytes → Bytes → Fs → Result IoError (Unit {0}) × Fs → Type 0
WholeOrNone path content s r =
    Ends (λ _ s'. (look s.disk path ≡ none) × (look s'.disk path ≡ some (regular content s.now)))
      (λ _ s'. Same path s.disk s'.disk ⊎ AbsentOrEmpty s.now (look s'.disk path)) r

pub create_exclusive-Whole :
    (path content : Bytes) (s : Fs) → WholeOrNone path content s (create_exclusive path content s)
unfolding create_exclusive
create_exclusive-Whole path content s = opened-Whole path content s (open_exclusive path s) (
    ends-map _ _ (open_exclusive path s) (λ _ x e. ((e.0.0, if_self path _ _ _ e.0.1), e.1))
      (λ _ x e. e) (open_exclusive_lem path path s))

-- CreateExclusive succeeds only where nothing was, and then the path has the whole content; after
-- an error the path is as it was, or it is absent, or it is the empty sentinel, but never a part
-- of the content. Whatever its outcome, every file or directory that was there stays as it was,
-- at the path itself too.
pub create_exclusive_lem :
    (path content q : Bytes) (n : Node) (s : Fs)
    → look s.disk q ≡ some n
    → WholeOrNone path content s (create_exclusive path content s)
      × (look (create_exclusive path content s).1.disk q ≡ some n)
unfolding create_exclusive
create_exclusive_lem path content q n s h = (
  create_exclusive-Whole path content s,
  opened-Others path content q n s (open_exclusive path s) h (open_exclusive_lem path q s)
      (open_exclusive_lem path path s),
)
