-- ===== src/Common/Paths/Inside.antt =====
-- What IsSubPath and the validations of common/pathutil.go establish about a path.
use mathlib.Core.Bool.{xor}
use mathlib.Core.List.{append-nil}
use echolist_backend.Base.{
  Bool, true, false, Option, none, some, List, [], ◌∷◌, ◌++◌, any, if◌then◌else◌, Bytes, str_eq,
  str_eq_iff, ◌≡◌, ◌⊎◌, ◌↔◌, refl, sym, ap, ◌∙◌, arith,
}
use echolist_backend.Base.Action.{ok}
use echolist_backend.Common.Filepath.{
  split, join_segments, dot, dot_dot, is_rooted, clean_segments, or_dot, clean, join, diverge,
  up_then_down, relative, rel,
}
use echolist_backend.Common.Names.{contains_byte}
use echolist_backend.Common.Paths.{
  Os, not_dot_dot, is_sub_path, reject_bad_relative_path, resolve_symlinks, contained,
  validate_path_or_root,
}

diverge-prefix : (bs us : List Bytes) → (diverge bs us).0 ≡ [] → us ≡ bs ++ (diverge bs us).1
unfolding diverge
diverge-prefix [] us h = refl
diverge-prefix (b ∷ bs) [] h = ground arith
diverge-prefix (b ∷ bs) (u ∷ us) h = ground (arith, diverge-prefix bs us, str_eq_iff b u)

climbs :
    (ss : List Bytes)
    → any (λ part. str_eq part dot_dot) (split (join_segments (dot_dot ∷ ss))) ≡ true
unfolding split join_segments str_eq
climbs [] = refl
climbs (s ∷ ss) = refl

relative-not_dot_dot : (bs ts : List Bytes) → not_dot_dot (relative bs ts) ≡ true → bs ≡ []
relative-not_dot_dot [] ts h = refl
relative-not_dot_dot (b ∷ bs) ts h = ground (arith, climbs (up_then_down bs ts))

-- The segments of one path, then at least one more.
abbrev pub Inside : Bytes → Bytes → Type 0
Inside base path =
    (s : Bytes) × (ss : List Bytes) × (clean_segments path ≡ clean_segments base ++ (s ∷ ss))

-- The tests of Rel before it counts segments.
abbrev chosen : Bool → Bool → Option Bytes → Option Bytes
chosen same mixed r = if same then some dot else if mixed then none else r

chosen-not_dot_dot :
    (same mixed : Bool) (r : Option Bytes)
    → not_dot_dot (chosen same mixed r) ≡ true
    → (same ≡ false) × (mixed ≡ false) × (not_dot_dot r ≡ true)
unfolding str_eq
chosen-not_dot_dot true mixed r h = ground arith
chosen-not_dot_dot false true r h = ground arith
chosen-not_dot_dot false false r h = (refl, refl, h)

is_sub_path-chosen :
    (base target : Bytes)
    → is_sub_path base target ≡ true
    → (str_eq (clean target) (clean base) ≡ false)
      × (xor (is_rooted base) (is_rooted target) ≡ false)
      × (not_dot_dot (
            relative
              (diverge (clean_segments base) (clean_segments target)).0
              (diverge (clean_segments base) (clean_segments target)).1)
          ≡ true)
unfolding is_sub_path rel
is_sub_path-chosen base target h =
    chosen-not_dot_dot (str_eq (clean target) (clean base))
      (xor (is_rooted base) (is_rooted target)) _ h

same_root : (a b : Bool) → xor a b ≡ false → a ≡ b
unfolding xor
same_root true true h = refl
same_root true false h = ground arith
same_root false true h = ground arith
same_root false false h = refl

clean-segments :
    (a b : Bytes)
    → is_rooted a ≡ is_rooted b
    → clean_segments a ≡ clean_segments b
    → clean a ≡ clean b
unfolding clean
clean-segments a b root same =
    ap
      (λ r.
        or_dot
          (if r then b'/' ∷ join_segments (clean_segments a) else join_segments (clean_segments a)))
      root
    ∙ ap (λ ss. or_dot (if is_rooted b then b'/' ∷ join_segments ss else join_segments ss)) same

-- Segments that follow those of the base make a different path only if there are some.
strictly :
    (base path : Bytes) (ts : List Bytes)
    → is_rooted base ≡ is_rooted path
    → str_eq (clean path) (clean base) ≡ false
    → clean_segments path ≡ clean_segments base ++ ts
    → Inside base path
strictly base path [] root differ h =
    let same = clean-segments path base (sym root) (h ∙ append-nil (clean_segments base)) in
    ground (arith, same, str_eq_iff (clean path) (clean base))
strictly base path (s ∷ ss) root differ h = (s, ss, h)

-- IsSubPath only holds of a path that lies strictly below the base: its cleaned segments are those
-- of the base and at least one more.
pub is_sub_path-Inside : (base path : Bytes) → is_sub_path base path ≡ true → Inside base path
is_sub_path-Inside base path h =
    let (differ, root, rest) = is_sub_path-chosen base path h in
    strictly base path (diverge (clean_segments base) (clean_segments path)).1
      (same_root (is_rooted base) (is_rooted path) root) differ
      (diverge-prefix (clean_segments base) (clean_segments path) (
        relative-not_dot_dot (diverge (clean_segments base) (clean_segments path)).0
          (diverge (clean_segments base) (clean_segments path)).1 rest))

-- The rules for a path from a client.
abbrev pub IsCleanRelative : Bytes → Type 0
IsCleanRelative p =
    (is_rooted p ≡ false)
    × (contains_byte 92 p ≡ false)
    × (contains_byte 0 p ≡ false)
    × (clean p ≡ p)
    × (any (λ seg. str_eq seg dot_dot) (split p) ≡ false)

pub reject_bad_relative_path_iff :
    (p : Bytes) → (reject_bad_relative_path p ≡ ok tt) ↔ ((p ≡ []) ⊎ IsCleanRelative p)
unfolding reject_bad_relative_path
reject_bad_relative_path_iff [] = ground arith
reject_bad_relative_path_iff (c ∷ s) = ground (arith, str_eq_iff (clean (c ∷ s)) (c ∷ s))

contained-Inside :
    (data_dir r : Bytes) (allow : Bool) (o : Option Bytes)
    → contained data_dir allow o ≡ ok r
    → (o ≡ some r) × (((allow ≡ true) × (r ≡ data_dir)) ⊎ Inside data_dir r)
contained-Inside data_dir r allow none h = ground arith
contained-Inside data_dir r allow (some q) h =
    ground (arith, str_eq_iff q data_dir, is_sub_path-Inside data_dir q)

-- A path from a client is accepted only if it is empty or keeps the rules: relative, without a
-- backslash, a zero byte or a segment "..", and clean. What is returned is the resolved path, and it
-- is the data directory itself, where the caller allows that, or lies strictly below it.
pub validate_path_or_root-Inside :
    (os : Os) (data_dir p r : Bytes) (allow : Bool)
    → validate_path_or_root os data_dir p allow ≡ ok r
    → ((p ≡ []) ⊎ IsCleanRelative p)
      × (resolve_symlinks os (join data_dir (clean p)) ≡ some r)
      × (((allow ≡ true) × (r ≡ data_dir)) ⊎ Inside data_dir r)
unfolding validate_path_or_root
validate_path_or_root-Inside os data_dir p r allow h = ground (
  arith,
  reject_bad_relative_path_iff p,
  contained-Inside data_dir r allow (resolve_symlinks os (join data_dir (clean p))),
)
