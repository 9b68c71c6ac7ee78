-- ===== src/Common/Disk/Calls.antt =====
-- What each call of Go's package os leaves at a path, whatever the call meets.
use echolist_backend.Base.{
  ℕ, Bool, true, false, Option, none, some, List, [], ◌∷◌, if◌then◌else◌, Bytes, str_eq, str_eq_iff,
  str_eq_refl, take, ◌≡◌, refl, arith,
}
use echolist_backend.Base.Action.{Result, ok, err}
use echolist_backend.Base.Triples.{Ends}
use echolist_backend.Common.Disk.{
  Node, regular, folder, Disk, Fs, IoError, Meets, works, fails, stops, look, put, drop_at,
  free_name, create_temp, write_file, flush, rename, remove, open_exclusive, stat, system_call_or,
  system_call, is_folder, meeting, settled, created_in, opened, stat_of, removed, no_entry,
}
use echolist_backend.Common.Disk.Map.{look-put, look-drop_at}

module _ {A : Type 0} where
  -- What a call leaves on the disk when it works and when it does not; the clock stands still.
  abbrev pub Leaves : (A → Disk → Type 0) → (Disk → Type 0) → ℕ → Result IoError A × Fs → Type 0
  Leaves Q R time r = Ends (λ a s. Q a s.disk × (s.now ≡ time)) (λ e s. R s.disk × (s.now ≡ time)) r

  settled-Leaves :
      (Q : A → Disk → Type 0) (R : Disk → Type 0) (p : Result IoError A × Disk) (s : Fs)
      → Ends Q (λ _ d. R d) p
      → Leaves Q R s.now (settled p s)
  settled-Leaves Q R (ok a, d) s h = (h, refl)
  settled-Leaves Q R (err e, d) s h = (h, refl)

  pub meeting-Leaves :
      (Q : A → Disk → Type 0) (R : Disk → Type 0) (partial : ℕ → Disk → Disk)
      (f : Disk → Result IoError A × Disk) (ms : List Meets) (s : Fs)
      → Ends Q (λ _ d. R d) (f s.disk)
      → ((k : ℕ) → R (partial k s.disk))
      → R s.disk
      → Leaves Q R s.now (meeting f partial ms s)
  meeting-Leaves Q R partial f [] s q p r = settled-Leaves Q R (f s.disk) s q
  meeting-Leaves Q R partial f (works ∷ ms) s q p r =
      settled-Leaves Q R (f s.disk) (record s { meets = ms }) q
  meeting-Leaves Q R partial f (fails k ∷ ms) s q p r = (p k, refl)
  meeting-Leaves Q R partial f (stops ∷ ms) s q p r = (r, refl)

  pub system_call-Leaves :
      (Q : A → Disk → Type 0) (R : Disk → Type 0) (f : Disk → Result IoError A × Disk) (s : Fs)
      → Ends Q (λ _ d. R d) (f s.disk)
      → R s.disk
      → Leaves Q R s.now (system_call f s)
  unfolding system_call system_call_or
  system_call-Leaves Q R f s q r = meeting-Leaves Q R (λ k d. d) f s.meets s q (λ k. r) r

-- The path shows what it did on another disk.
abbrev pub Same : Bytes → Disk → Disk → Type 0
Same q d d' = look d' q ≡ look d q

pub put-Same : (p q : Bytes) (n : Node) (d : Disk) → str_eq p q ≡ false → Same q d (put p n d)
put-Same p q n d h = ground (arith, look-put p q n d)

pub look-put-same : (p : Bytes) (n : Node) (d : Disk) → look (put p n d) p ≡ some n
look-put-same p n d = ground (arith, look-put p p n d, str_eq_refl p)

pub write_file_lem :
    (p content q : Bytes) (s : Fs)
    → str_eq p q ≡ false
    → Leaves
        (λ _ d. Same q s.disk d × (look d p ≡ some (regular content s.now)))
        (Same q s.disk)
        s.now
        (write_file p content s)
unfolding write_file system_call_or
write_file_lem p content q s h =
    meeting-Leaves _ _ (λ k d. put p (regular (take k content) s.now) d)
      (λ d. (ok tt, put p (regular content s.now) d)) s.meets s
      (put-Same p q _ s.disk h, look-put-same p _ s.disk) (λ k. put-Same p q _ s.disk h) refl

pub flush_lem : (s : Fs) → ((flush s).1.disk ≡ s.disk) × ((flush s).1.now ≡ s.now)
unfolding flush system_call
flush_lem s = ground arith

pub remove_lem :
    (p q : Bytes) (s : Fs)
    → str_eq p q ≡ false
    → Same q s.disk (remove p s).1.disk × ((remove p s).1.now ≡ s.now)
unfolding remove
remove_lem p q s h = ground (arith, look-drop_at p q s.disk)

-- os.Remove of the path itself takes its file away, or nothing.
pub remove_self :
    (p : Bytes) (c : Bytes) (t : ℕ) (s : Fs)
    → look s.disk p ≡ some (regular c t)
    → Ends (λ _ s'. look s'.disk p ≡ none) (λ _ s'. s'.disk ≡ s.disk) (remove p s)
unfolding remove
remove_self p c t s h = ground (arith, look-drop_at p p s.disk, str_eq_refl p)

-- A file takes the place of another, or both stay.
pub rename_lem :
    (p q x : Bytes) (c c' : Bytes) (t t' : ℕ) (s : Fs)
    → look s.disk p ≡ some (regular c t)
    → look s.disk q ≡ some (regular c' t')
    → str_eq p x ≡ false
    → Ends
        (λ _ s'. look s'.disk x ≡ (if str_eq q x then some (regular c t) else look s.disk x))
        (λ _ s'. s'.disk ≡ s.disk)
        (rename p q s)
unfolding rename
rename_lem p q x c c' t t' s hp hq h =
    ground (arith, look-put q x (regular c t) (drop_at p s.disk), look-drop_at p x s.disk)

created_in-Ends :
    (p q : Bytes) (t : ℕ) (parent : Bool) (o : Option Node) (d : Disk)
    → look d p ≡ o
    → Ends
        (λ _ d'.
          (look d p ≡ none) × (look d' q ≡ (if str_eq p q then some (regular [] t) else look d q)))
        (λ _ d'. Same q d d')
        (created_in p t parent o d)
created_in-Ends p q t parent (some n) d h = refl
created_in-Ends p q t true none d h = (h, look-put p q _ d)
created_in-Ends p q t false none d h = refl

pub open_exclusive_lem :
    (p q : Bytes) (s : Fs)
    → Leaves
        (λ _ d.
          (look s.disk p ≡ none)
          × (look d q ≡ (if str_eq p q then some (regular [] s.now) else look s.disk q)))
        (Same q s.disk)
        s.now
        (open_exclusive p s)
unfolding open_exclusive
open_exclusive_lem p q s =
    system_call-Leaves _ _ _ s (created_in-Ends p q s.now _ _ s.disk refl) refl

pub free_name-IsFree :
    (d : Disk) (parent prefix : Bytes) (rs : List Bytes) (name : Bytes)
    → (free_name d parent prefix rs).0 ≡ some name
    → look d name ≡ none
unfolding free_name
free_name-IsFree d parent prefix [] name h = ground arith
free_name-IsFree d parent prefix (r ∷ rs) name h =
    ground (arith, free_name-IsFree d parent prefix rs name)

-- A path that is taken is not the one that is drawn.
pub taken-differs :
    (d : Disk) (p q : Bytes) (n : Node) → look d p ≡ none → look d q ≡ some n → str_eq p q ≡ false
taken-differs d p q n h g = ground (arith, str_eq_iff p q)

-- Another file is created: what was there is elsewhere, and stays.
abbrev pub Beside : Disk → Bytes → Disk → Type 0
Beside d name d' =
    (x : Bytes) (n : Node) → look d x ≡ some n → (str_eq name x ≡ false) × Same x d d'

opened-Ends :
    (parent : Bytes) (o : Option Bytes) (t : ℕ) (there : Bool) (d : Disk)
    → ((name : Bytes) → o ≡ some name → look d name ≡ none)
    → Ends (λ name d'. Beside d name d') (λ _ d'. d' ≡ d) (opened parent o t there d)
opened-Ends parent none t there d h = refl
opened-Ends parent (some name) t true d h = λ x n g.
    let apart = taken-differs d name x n (h name refl) g in (apart, put-Same name x _ d apart)
opened-Ends parent (some name) t false d h = refl

-- The temporary file is a new one.
pub create_temp_lem :
    (parent prefix : Bytes) (s : Fs)
    → Leaves (λ name d. Beside s.disk name d) (λ d. d ≡ s.disk) s.now (create_temp parent prefix s)
unfolding create_temp
create_temp_lem parent prefix s =
    let name = (free_name s.disk parent prefix s.random).0 in
    system_call-Leaves (λ name d. Beside s.disk name d) (λ d. d ≡ s.disk)
      (λ d. opened parent name s.now (is_folder (look d parent)) d)
      (record s { random = (free_name s.disk parent prefix s.random).1 })
      (opened-Ends parent name s.now (is_folder (look s.disk parent)) s.disk
        (λ n e. free_name-IsFree s.disk parent prefix s.random n e))
      refl

pub stat_lem :
    (p : Bytes) (s : Fs)
    → Leaves (λ n d. (look s.disk p ≡ some n) × (d ≡ s.disk)) (λ d. d ≡ s.disk) s.now (stat p s)
unfolding stat
stat_lem p s = system_call-Leaves _ _ _ s (stat_of-Ends (look s.disk p) refl) refl
  where
    stat_of-Ends :
        (o : Option Node)
        → look s.disk p ≡ o
        → Ends
            (λ n d. (look s.disk p ≡ some n) × (d ≡ s.disk))
            (λ _ d. d ≡ s.disk)
            (stat_of o, s.disk)
    stat_of-Ends none h = refl
    stat_of-Ends (some n) h = (h, refl)

-- After os.Remove has succeeded or found nothing, the path of a file is free.
pub remove-gone :
    (p : Bytes) (s : Fs)
    → Ends
        (λ _ s'. look s'.disk p ≡ none)
        (λ e s'. (s'.disk ≡ s.disk) × (e ≡ no_entry → look s'.disk p ≡ none))
        (remove p s)
unfolding remove system_call system_call_or
remove-gone p s = gone s.meets
  where
    removed-gone :
        (o : Option Node) (s' : Fs)
        → look s.disk p ≡ o
        → s'.disk ≡ s.disk
        → Ends
            (λ _ s'. look s'.disk p ≡ none)
            (λ e s'. (s'.disk ≡ s.disk) × (e ≡ no_entry → look s'.disk p ≡ none))
            (settled (removed p o s.disk) s')
    removed-gone none s' h e = (refl, λ n. h)
    removed-gone (some (regular c t)) s' h e =
        ground (arith, look-drop_at p p s.disk, str_eq_refl p)
    removed-gone (some folder) s' h e = ground (arith, look-drop_at p p s.disk, str_eq_refl p)

    gone :
        (ms : List Meets)
        → Ends
            (λ _ s'. look s'.disk p ≡ none)
            (λ e s'. (s'.disk ≡ s.disk) × (e ≡ no_entry → look s'.disk p ≡ none))
            (meeting (λ d. removed p (look d p) d) (λ k d. d) ms s)
    gone [] = removed-gone (look s.disk p) s refl refl
    gone (works ∷ ms) = removed-gone (look s.disk p) (record s { meets = ms }) refl refl
    gone (fails k ∷ ms) = (refl, λ e. ground arith)
    gone (stops ∷ ms) = (refl, λ e. ground arith)

-- A file that is renamed stands at the new path, whatever stood there.
pub rename-file :
    (p q c : Bytes) (t : ℕ) (s : Fs)
    → look s.disk p ≡ some (regular c t)
    → Ends (λ _ s'. look s'.disk q ≡ some (regular c t)) (λ _ s'. s'.disk ≡ s.disk) (rename p q s)
unfolding rename
rename-file p q c t s h =
    ground (arith, look-put q q (regular c t) (drop_at p s.disk), str_eq_refl q)
