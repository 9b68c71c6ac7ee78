-- ===== src/Common/Disk/Folders/Calls.antt =====
-- What os.Mkdir and os.RemoveAll leave at a path, whatever they meet.
use echolist_backend.Base.{
  ℕ, zero, suc, Bool, true, false, not, Option, none, some, [], ◌∷◌, select, if◌then◌else◌, Bytes,
  str_eq, str_eq_iff, ◌≡◌, refl, arith,
}
use echolist_backend.Base.Triples.{Ends}
use echolist_backend.Common.Disk.{Node, folder, Disk, Fs, look}
use echolist_backend.Common.Disk.Map.{look-put}
use echolist_backend.Common.Disk.Calls.{Leaves, system_call-Leaves, meeting-Leaves}
use echolist_backend.Common.Disk.Folders.{made_in, mkdir, inside, remove_all, drop_inside}

made_in-Ends :
    (p q : Bytes) (parent : Bool) (o : Option Node) (d : Disk)
    → look d p ≡ o
    → Ends
        (λ _ d'. (look d p ≡ none) × (look d' q ≡ (if str_eq p q then some folder else look d q)))
        (λ _ d'. d' ≡ d)
        (made_in p parent o d)
made_in-Ends p q parent (some n) d h = refl
made_in-Ends p q true none d h = (h, look-put p q folder d)
made_in-Ends p q false none d h = refl

pub mkdir_lem :
    (p q : Bytes) (s : Fs)
    → Leaves
        (λ _ d.
          (look s.disk p ≡ none) × (look d q ≡ (if str_eq p q then some folder else look s.disk q)))
        (λ d. d ≡ s.disk)
        s.now
        (mkdir p s)
unfolding mkdir
mkdir_lem p q s = system_call-Leaves _ _ _ s (made_in-Ends p q _ _ s.disk refl) refl

look-outside :
    (p q : Bytes) (d : Disk)
    → look (select (λ e. not (inside p e.0)) d) q ≡ (if inside p q then none else look d q)
unfolding look
look-outside p q [] = ground arith
look-outside p q (e ∷ d) = ground (arith, look-outside p q d, str_eq_iff e.0 q)

look-drop_inside :
    (k : ℕ) (p q : Bytes) (d : Disk) → inside p q ≡ false → look (drop_inside k p d) q ≡ look d q
unfolding look drop_inside
look-drop_inside zero p q d h = refl
look-drop_inside (suc k) p q [] h = refl
look-drop_inside (suc k) p q (e ∷ d) h =
    ground (arith, look-drop_inside k p q d h, look-drop_inside (suc k) p q d h, str_eq_iff e.0 q)

-- After os.RemoveAll nothing is left at the path or below it; what is elsewhere stays, after an
-- error too.
pub remove_all_lem :
    (p q : Bytes) (s : Fs)
    → Leaves
        (λ _ d. look d q ≡ (if inside p q then none else look s.disk q))
        (λ d. inside p q ≡ false → look d q ≡ look s.disk q)
        s.now
        (remove_all p s)
unfolding remove_all
remove_all_lem p q s =
    meeting-Leaves _ _ _ _ s.meets s (look-outside p q s.disk) (λ k. look-drop_inside k p q s.disk)
      (λ h. refl)
