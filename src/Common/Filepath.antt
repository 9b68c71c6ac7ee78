-- ===== src/Common/Filepath.antt =====
-- What the program uses of Go's path/filepath, on Unix.
pub mod Lengths
use echolist_backend.Base.{
  ℕ, Bool, false, ◌&&◌, ◌||◌, Option, none, some, List, [], ◌∷◌, ◌++◌, any, ◌==◌, if◌then◌else◌,
  Bytes, bytes, str_eq,
}
use mathlib.Core.Bool.{xor}
use mathlib.Core.List.{reverse}

-- The first segment and the other ones of a split, with one more byte in front.
abbrev pub cons_byte : ℕ → List Bytes → List Bytes
cons_byte c [] = (c ∷ []) ∷ []
cons_byte c (s ∷ ss) = (c ∷ s) ∷ ss

-- strings.Split(s, "/"): the empty text has one segment, itself.
unfoldable pub split : Bytes → List Bytes
split [] = [] ∷ []
split (c ∷ s) = let rest = split s in if c == b'/' then [] ∷ rest else cons_byte c rest

-- strings.Join(segments, "/")
unfoldable pub join_segments : List Bytes → Bytes
join_segments [] = []
join_segments (s ∷ []) = s
join_segments (s ∷ t ∷ ss) = s ++ (b'/' ∷ join_segments (t ∷ ss))

abbrev pub dot : Bytes
dot = bytes "."

abbrev pub dot_dot : Bytes
dot_dot = bytes ".."

abbrev pub is_rooted : Bytes → Bool
is_rooted [] = false
is_rooted (c ∷ s) = c == b'/'

-- A ".." behind the segments kept so far, the last one first.
abbrev pub go_up : Bool → List Bytes → List Bytes
go_up rooted [] = if rooted then [] else dot_dot ∷ []
go_up rooted (s ∷ kept) = if str_eq s dot_dot then dot_dot ∷ s ∷ kept else kept

abbrev pub keep_segment : Bool → List Bytes → Bytes → List Bytes
keep_segment rooted kept s =
    if str_eq s [] || str_eq s dot
    then kept
    else if str_eq s dot_dot
    then go_up rooted kept
    else s ∷ kept

unfoldable pub clean_from : Bool → List Bytes → List Bytes → List Bytes
clean_from rooted kept [] = reverse kept
clean_from rooted kept (s ∷ ss) = clean_from rooted (keep_segment rooted kept s) ss

-- The segments of Clean(path).
unfoldable pub clean_segments : Bytes → List Bytes
unfolding clean_from split
clean_segments path = clean_from (is_rooted path) [] (split path)

abbrev pub or_dot : Bytes → Bytes
or_dot [] = dot
or_dot (c ∷ s) = c ∷ s

-- filepath.Clean
unfoldable pub clean : Bytes → Bytes
unfolding clean_segments join_segments
clean path =
    let rel = join_segments (clean_segments path) in
    or_dot (if is_rooted path then b'/' ∷ rel else rel)

-- filepath.Join of two elements
unfoldable pub join : Bytes → Bytes → Bytes
unfolding clean
join a b = if str_eq a [] then (if str_eq b [] then [] else clean b) else clean (a ++ (b'/' ∷ b))

-- The text up to its last separator, and what follows that.
unfoldable pub dir_part : Bytes → Bytes
dir_part [] = []
dir_part (c ∷ s) =
    let rest = dir_part s in if c == b'/' || any (λ x. x == b'/') s then c ∷ rest else []

unfoldable pub file_part : Bytes → Bytes
file_part [] = []
file_part (c ∷ s) =
    let rest = file_part s in if c == b'/' || any (λ x. x == b'/') s then rest else c ∷ s

-- filepath.Dir
unfoldable pub dir : Bytes → Bytes
unfolding clean dir_part
dir path = clean (dir_part path)

-- The text without the separators at its end.
unfoldable pub trim_slashes : Bytes → Bytes
trim_slashes [] = []
trim_slashes (c ∷ s) =
    let rest = trim_slashes s in if c == b'/' && str_eq rest [] then [] else c ∷ rest

-- filepath.Base
unfoldable pub base : Bytes → Bytes
unfolding file_part trim_slashes
base path =
    if str_eq path []
    then dot
    else let name = file_part (trim_slashes path) in if str_eq name [] then bytes "/" else name

-- The segments of base and target behind those that they share.
unfoldable pub diverge : List Bytes → List Bytes → List Bytes × List Bytes
diverge [] ts = ([], ts)
diverge (b ∷ bs) [] = (b ∷ bs, [])
diverge (b ∷ bs) (t ∷ ts) =
    let further = diverge bs ts in if str_eq b t then further else (b ∷ bs, t ∷ ts)

-- One ".." for each segment of the base that is left, then the segments of the target.
abbrev pub up_then_down : List Bytes → List Bytes → List Bytes
up_then_down [] ts = ts
up_then_down (b ∷ bs) ts = dot_dot ∷ up_then_down bs ts

abbrev pub relative : List Bytes → List Bytes → Option Bytes
relative [] ts = some (join_segments ts)
relative (b ∷ bs) ts =
    if str_eq b dot_dot then none else some (join_segments (up_then_down (b ∷ bs) ts))

-- filepath.Rel; `none` is its error.
unfoldable pub rel : Bytes → Bytes → Option Bytes
unfolding clean diverge join_segments
rel base_path target =
    if str_eq (clean target) (clean base_path)
    then some dot
    else if xor (is_rooted base_path) (is_rooted target)
    then none
    else (let (bs, ts) = diverge (clean_segments base_path) (clean_segments target) in
        relative bs ts)
