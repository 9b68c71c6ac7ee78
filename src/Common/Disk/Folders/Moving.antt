-- ===== src/Common/Disk/Folders/Moving.antt =====
-- A directory that os.Rename moves takes what is below it along.
use echolist_backend.Base.{
  true, false, none, some, [], ◌∷◌, ◌++◌, drop, length, All, if◌then◌else◌, Bytes, bytes, str_eq,
  str_eq_iff, str_eq_refl, has_prefix, Bool-cases, ◌⊎◌, inl, inr, ◌≡◌, refl, sym, ap, ◌∙◌, arith,
}
use mathlib.Core.List.{append_assoc}
use echolist_backend.Base.Substrings.{prefix-rest, prefix-append}
use echolist_backend.Base.Triples.{Ends}
use echolist_backend.Common.Disk.{Node, folder, Disk, Fs, look, below, moved_path, move_all, rename}
use echolist_backend.Common.Disk.Folders.{inside}

drop-append : (p s : Bytes) → drop (length p) (p ++ s) ≡ s
drop-append [] s = refl
drop-append (c ∷ p) s = drop-append p s

cancel : (p s t : Bytes) → p ++ s ≡ p ++ t → s ≡ t
cancel p s t h = sym (drop-append p s) ∙ ap (λ x. drop (length p) x) h ∙ drop-append p t

below-rest : (d p : Bytes) → below d p ≡ true → (r : Bytes) × (p ≡ d ++ (b'/' ∷ r))
unfolding below
below-rest d p h = (
  drop (length (d ++ bytes "/")) p,
  prefix-rest (d ++ bytes "/") p h ∙ append_assoc d (bytes "/") _,
)

below-append : (d r : Bytes) → below d (d ++ (b'/' ∷ r)) ≡ true
unfolding below
below-append d r =
    ap (λ x. has_prefix (d ++ bytes "/") x) (sym (append_assoc d (bytes "/") r))
    ∙ prefix-append (d ++ bytes "/") r

not_itself : (d r : Bytes) → str_eq (d ++ (b'/' ∷ r)) d ≡ false
unfolding str_eq
not_itself [] r = refl
not_itself (c ∷ d) r = ground (arith, not_itself d r)

-- Where a path goes: the directory itself, a path below it, or another one.
abbrev Moves : Bytes → Bytes → Bytes → Type 0
Moves old new p =
    ((p ≡ old) × (moved_path old new p ≡ new))
    ⊎ (((r : Bytes) × (p ≡ old ++ (b'/' ∷ r)) × (moved_path old new p ≡ new ++ (b'/' ∷ r)))
        ⊎ ((moved_path old new p ≡ p) × (inside old p ≡ false)))

moves : (old new p : Bytes) → Moves old new p
moves old new p = elim (Bool-cases (str_eq p old)) [
  | inl h ↦ inl ((str_eq_iff p old).0 h, ground arith)
  | inr h ↦ elim (Bool-cases (below old p)) [
    | inl b ↦
        let (r, e) = below-rest old p b in
        inr (
          inl (
            r,
            e,
            ap (λ x. if x then new else if below old p then new ++ drop (length old) p else p) h
                ∙ ap (λ x. if x then new ++ drop (length old) p else p) b
                ∙ ap (λ x. new ++ drop (length old) x) e
                ∙ ap (λ x. new ++ x) (drop-append old (b'/' ∷ r)),
          ))
    | inr b ↦ inr (inr (ground arith, ground arith))
  ]
]

no_loop : {A : Type 0} (d r : Bytes) → d ≡ d ++ (b'/' ∷ r) → A
no_loop d r h =
    let e = not_itself d r in let e' = (str_eq_iff (d ++ (b'/' ∷ r)) d).1 (sym h) in ground arith

not_at : {A : Type 0} (new q : Bytes) → inside new q ≡ false → new ≡ q → A
not_at new q h e = let e' = (str_eq_iff q new).1 (sym e) in ground arith

not_below : {A : Type 0} (new q r : Bytes) → inside new q ≡ false → new ++ (b'/' ∷ r) ≡ q → A
not_below new q r h e =
    let e' : below new q ≡ true = ap (below new) (sym e) ∙ below-append new r in ground arith

-- Nothing is at or below the new path, so that no two paths meet there.
moved-apart :
    (old new p q : Bytes)
    → inside new p ≡ false
    → inside new q ≡ false
    → moved_path old new p ≡ moved_path old new q
    → p ≡ q
moved-apart old new p q hp hq e = meet (moves old new p) (moves old new q)
  where
    meet : Moves old new p → Moves old new q → p ≡ q
    meet (inl (x, u)) (inl (y, v)) = x ∙ sym y
    meet (inl (x, u)) (inr (inl (s, y, v))) = no_loop new s (sym u ∙ e ∙ v)
    meet (inl (x, u)) (inr (inr (v, o))) = not_at new q hq (sym u ∙ e ∙ v)
    meet (inr (inl (r, x, u))) (inl (y, v)) = no_loop new r (sym v ∙ sym e ∙ u)
    meet (inr (inl (r, x, u))) (inr (inl (s, y, v))) =
        x ∙ ap (λ z. old ++ z) (cancel new _ _ (sym u ∙ e ∙ v)) ∙ sym y
    meet (inr (inl (r, x, u))) (inr (inr (v, o))) = not_below new q r hq (sym u ∙ e ∙ v)
    meet (inr (inr (u, o))) (inl (y, v)) = not_at new p hp (sym v ∙ sym e ∙ u)
    meet (inr (inr (u, o))) (inr (inl (s, y, v))) = not_below new p s hp (sym v ∙ sym e ∙ u)
    meet (inr (inr (u, o))) (inr (inr (v, o'))) = sym u ∙ e ∙ v

moved-str_eq :
    (old new p q : Bytes)
    → inside new p ≡ false
    → inside new q ≡ false
    → str_eq (moved_path old new p) (moved_path old new q) ≡ str_eq p q
moved-str_eq old new p q hp hq = elim (Bool-cases (str_eq p q)) [
  | inl h ↦
      ap (λ x. str_eq (moved_path old new x) (moved_path old new q)) ((str_eq_iff p q).0 h)
      ∙ str_eq_refl (moved_path old new q)
      ∙ sym h
  | inr h ↦ elim (Bool-cases (str_eq (moved_path old new p) (moved_path old new q))) [
    | inl g ↦
        let e = (str_eq_iff p q).1 (
          moved-apart old new p q hp hq
            ((str_eq_iff (moved_path old new p) (moved_path old new q)).0 g)) in
        ground arith
    | inr g ↦ g ∙ sym h
  ]
]

-- Nothing on the disk is at the path or below it.
abbrev pub IsFree : Bytes → Disk → Type 0
IsFree new d = All (λ (e : Bytes × Node). inside new e.0 ≡ false) d

-- What was at a path is where the path has gone.
pub look-move_all :
    (old new q : Bytes) (d : Disk)
    → inside new q ≡ false
    → IsFree new d
    → look (move_all old new d) (moved_path old new q) ≡ look d q
unfolding look
look-move_all old new q [] h f = refl
look-move_all old new q (e ∷ d) h f =
    let same = moved-str_eq old new e.0 q f.0 h in
    let rest = look-move_all old new q d h f.1 in
    ap (λ b. if b then some e.1 else look (move_all old new d) (moved_path old new q)) same
    ∙ ap (λ o. if str_eq e.0 q then some e.1 else o) rest

-- Only what is below the new path is where the directory was.
vacated_path :
    (old new p q : Bytes)
    → inside old q ≡ true
    → inside new q ≡ false
    → str_eq (moved_path old new p) q ≡ false
vacated_path old new p q was apart = elim (Bool-cases (str_eq (moved_path old new p) q)) [
  | inl h ↦ meet (moves old new p) ((str_eq_iff (moved_path old new p) q).0 h)
  | inr h ↦ h
]
  where
    meet : Moves old new p → moved_path old new p ≡ q → str_eq (moved_path old new p) q ≡ false
    meet (inl (x, u)) e = not_at new q apart (sym u ∙ e)
    meet (inr (inl (r, x, u))) e = not_below new q r apart (sym u ∙ e)
    meet (inr (inr (u, o))) e = let o' = ap (inside old) (sym e ∙ u) in absurd (ground arith)

-- Nothing is left where the directory was.
pub look-move_all_vacated :
    (old new q : Bytes) (d : Disk)
    → inside old q ≡ true
    → inside new q ≡ false
    → look (move_all old new d) q ≡ none
unfolding look
look-move_all_vacated old new q [] was apart = refl
look-move_all_vacated old new q (e ∷ d) was apart =
    ap (λ b. if b then some e.1 else look (move_all old new d) q)
      (vacated_path old new e.0 q was apart)
    ∙ look-move_all_vacated old new q d was apart

pub rename-folder :
    (old new : Bytes) (s : Fs)
    → look s.disk old ≡ some folder
    → Ends (λ _ s'. s'.disk ≡ move_all old new s.disk) (λ _ s'. s'.disk ≡ s.disk) (rename old new s)
unfolding rename
rename-folder old new s h = ground arith
