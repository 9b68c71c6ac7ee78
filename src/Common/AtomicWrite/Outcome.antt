-- ===== src/Common/AtomicWrite/Outcome.antt =====
-- What common/atomicwrite.go leaves at each path, whatever its calls meet: errors, writes that end
-- early, or the end of the process.
use echolist_backend.Base.{
  ℕ, false, Option, some, if◌then◌else◌, Bytes, bytes, str_eq, ◌≡◌, sym, ap, ◌∙◌,
}
use mathlib.Core.Path.{subst}
use echolist_backend.Base.Action.{Result, ok, err, Action, ◌>>◌, ignoring}
use echolist_backend.Base.Triples.{
  Ends, Triple, Triple-bind, Triple-weaken, Triple-on_error, Triple-ensuring,
}
use echolist_backend.Common.Filepath.{dir}
use echolist_backend.Common.Disk.{
  Node, regular, Fs, IoError, look, create_temp, write_file, flush, rename, remove,
}
use echolist_backend.Common.Disk.Calls.{
  Leaves, Same, Beside, write_file_lem, flush_lem, remove_lem, rename_lem, create_temp_lem,
}
use echolist_backend.Common.AtomicWrite.{fill_and_rename, atomic_write}

module _ (path old : Bytes) (since : ℕ) (q : Bytes) (n : Node) (time : ℕ) where
  -- A file stands at `path`, and `n` at `q`, which may be the same path.
  pub record Before (s : Fs) : Type 0 where
    pub at_path : look s.disk path ≡ some (regular old since)
    pub at_q : look s.disk q ≡ some n
    pub clock : s.now ≡ time

  abbrev Apart : Bytes → Type 0
  Apart tmp = (str_eq tmp q ≡ false) × (str_eq tmp path ≡ false)

  Before-kept :
      (s s' : Fs)
      → Before s
      → Same path s.disk s'.disk
      → Same q s.disk s'.disk
      → s'.now ≡ s.now
      → Before s'
  Before-kept s s' b p h t = record {
    at_path = p ∙ b.at_path;
    at_q = h ∙ b.at_q;
    clock = t ∙ b.clock;
  }

  pub Before-on : (s s' : Fs) → Before s → s'.disk ≡ s.disk → s'.now ≡ s.now → Before s'
  Before-on s s' b d t = Before-kept s s' b (ap (λ x. look x path) d) (ap (λ x. look x q) d) t

  created :
      (s : Fs) (r : Result IoError Bytes × Fs)
      → Before s
      → Leaves (λ name d. Beside s.disk name d) (λ d. d ≡ s.disk) s.now r
      → Ends (λ tmp s'. Apart tmp × Before s') (λ _ s'. Before s') r
  created s (ok tmp, s') b (h, t) =
      let at_q = h q n b.at_q in
      let at_path = h path (regular old since) b.at_path in
      ((at_q.0, at_path.0), Before-kept s s' b at_path.1 at_q.1 t)
  created s (err e, s') b (h, t) = Before-on s s' b h t

  create_temp-Before :
      (parent prefix : Bytes)
      → Triple Before (create_temp parent prefix) (λ tmp s. Apart tmp × Before s) (λ _ s. Before s)
  create_temp-Before parent prefix = record {
    at = λ s b. created s (create_temp parent prefix s) b (create_temp_lem parent prefix s);
  }

  module _ (tmp content : Bytes) (apart : Apart tmp) where
    -- The temporary file holds the whole content.
    abbrev Filled : Fs → Type 0
    Filled s = Before s × (look s.disk tmp ≡ some (regular content time))

    write_file-Filled : Triple Before (write_file tmp content) (λ _ s. Filled s) (λ _ s. Before s)
    write_file-Filled = record {
      at = λ s b.
          written s (write_file tmp content s) b (write_file_lem tmp content q s apart.0)
            (write_file_lem tmp content path s apart.1);
    }
      where
        written :
            (s : Fs) (r : Result IoError (Unit {0}) × Fs)
            → Before s
            → Leaves
                (λ _ d. Same q s.disk d × (look d tmp ≡ some (regular content s.now)))
                (Same q s.disk)
                s.now
                r
            → Leaves
                (λ _ d. Same path s.disk d × (look d tmp ≡ some (regular content s.now)))
                (Same path s.disk)
                s.now
                r
            → Ends (λ _ s'. Filled s') (λ _ s'. Before s') r
        written s (ok u, s') b ((h, f), t) ((p, g), t') =
            (Before-kept s s' b p h t, f ∙ ap (λ x. some (regular content x)) b.clock)
        written s (err e, s') b (h, t) (p, t') = Before-kept s s' b p h t

    flush-Filled : Triple Filled flush (λ _ s. Filled s) (λ _ s. Before s)
    flush-Filled = record { at = λ s f. flushed s (flush s) f (flush_lem s) }
      where
        flushed :
            (s : Fs) (r : Result IoError (Unit {0}) × Fs)
            → Filled s
            → (r.1.disk ≡ s.disk) × (r.1.now ≡ s.now)
            → Ends (λ _ s'. Filled s') (λ _ s'. Before s') r
        flushed s (ok u, s') (b, f) (d, t) = (Before-on s s' b d t, ap (λ x. look x tmp) d ∙ f)
        flushed s (err e, s') (b, f) (d, t) = Before-on s s' b d t

    -- After os.Rename the content stands at the path.
    abbrev Replaced : Fs → Type 0
    Replaced s = look s.disk q ≡ (if str_eq path q then some (regular content time) else some n)

    rename-Replaced :
        Triple Filled (rename tmp path) (λ _ s. Replaced s) (λ _ s. look s.disk q ≡ some n)
    rename-Replaced = record {
      at = λ s f.
          moved s (rename tmp path s) f
            (rename_lem tmp path q content old time since s f.1 f.0.at_path apart.0);
    }
      where
        moved :
            (s : Fs) (r : Result IoError (Unit {0}) × Fs)
            → Filled s
            → Ends
                (λ _ s'.
                  look s'.disk q
                  ≡ (if str_eq path q then some (regular content time) else look s.disk q))
                (λ _ s'. s'.disk ≡ s.disk)
                r
            → Ends (λ _ s'. Replaced s') (λ _ s'. look s'.disk q ≡ some n) r
        moved s (ok u, s') (b, f) h = rw (← b.at_q) h
        moved s (err e, s') (b, f) h = ap (λ x. look x q) h ∙ b.at_q

  -- `K` is what an error leaves at `q`: what stood there, after the cleanup.
  module _ (content : Bytes) (K : Option Node → Type 0) (unchanged : K (some n))
      (cleanup : Action Fs IoError (Unit {0}))
      (cleaned : (s : Fs) → Before s → K (look (cleanup s).1.disk q)) where
    abbrev Undone : IoError → Fs → Type 0
    Undone e s = K (look s.disk q)

    flush-Before : (s : Fs) → Before s → Before (flush s).1
    flush-Before s b = Before-on s (flush s).1 b (flush_lem s).0 (flush_lem s).1

    fill_and_rename-Replaced :
        (tmp : Bytes) (apart : Apart tmp)
        → Triple Before
            (fill_and_rename path content cleanup tmp)
            (λ _ s. Replaced tmp content apart s)
            Undone
    unfolding fill_and_rename
    fill_and_rename-Replaced tmp apart =
        Triple-bind
          (Triple-on_error (ignoring flush >> cleanup) (write_file-Filled tmp content apart)
            (λ e s b. cleaned (flush s).1 (flush-Before s b)))
          (λ _.
            Triple-bind
              (Triple-on_error (ignoring flush >> cleanup) (flush-Filled tmp content apart)
                (λ e s b. cleaned (flush s).1 (flush-Before s b)))
              (λ _.
                Triple-bind
                  (Triple-on_error cleanup (flush-Filled tmp content apart) (λ e s b. cleaned s b))
                  (λ _.
                    Triple-weaken (rename-Replaced tmp content apart) (λ s h. h) (λ a s h. h)
                      (λ e s h. subst K (sym h) unchanged))))

    pub atomic_write-Replaced :
        Triple Before
          (atomic_write path content cleanup)
          (λ _ s. look s.disk q ≡ (if str_eq path q then some (regular content time) else some n))
          Undone
    unfolding atomic_write
    atomic_write-Replaced =
        Triple-bind
          (Triple-on_error cleanup (create_temp-Before (dir path) (bytes ".tmp-"))
            (λ e s b. cleaned s b))
          (λ tmp. record {
            at = λ s h.
                (Triple-ensuring (remove tmp) (fill_and_rename-Replaced tmp h.0)
                    (λ a s' r. (remove_lem tmp q s' h.0.0).0 ∙ r)
                    (λ e s' r. subst K (sym (remove_lem tmp q s' h.0.0).0) r)).at
                  s h.1;
          })
