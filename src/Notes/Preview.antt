-- ===== src/Notes/Preview.antt =====
-- computePreview of notes/create_note.go. A string is UTF-8; the conversion to runes reads each
-- byte that starts no valid sequence as U+FFFD.
pub mod Bounds
use echolist_backend.Base.{
  ℕ, zero, suc, Bool, true, false, ◌&&◌, ◌||◌, List, [], ◌∷◌, ◌++◌, take, length, ltb, leb, ◌==◌,
  if◌then◌else◌, Bytes,
}

abbrev pub within : ℕ → ℕ → ℕ → Bool
within a b c = leb a c && leb c b

-- 10xxxxxx
abbrev pub is_continuation : ℕ → Bool
is_continuation c = within 128 191 c

-- The second byte that a first one of three or four allows.
abbrev pub second_of_three : ℕ → ℕ → Bool
second_of_three a b =
    if a == 224 then within 160 191 b else if a == 237 then within 128 159 b else is_continuation b

abbrev pub second_of_four : ℕ → ℕ → Bool
second_of_four a b =
    if a == 240 then within 144 191 b else if a == 244 then within 128 143 b else is_continuation b

abbrev pub replacement : Bytes
replacement = 239 ∷ 191 ∷ 189 ∷ []

-- The first rune in UTF-8 again, and how many more bytes it takes.
abbrev pub first_rune : ℕ → Bytes → Bytes × ℕ
first_rune a [] = if ltb a 128 then (a ∷ [], 0) else (replacement, 0)
first_rune a (b ∷ []) =
    if ltb a 128
    then (a ∷ [], 0)
    else if within 194 223 a && is_continuation b
    then (a ∷ b ∷ [], 1)
    else (replacement, 0)
first_rune a (b ∷ c ∷ []) =
    if ltb a 128
    then (a ∷ [], 0)
    else if within 194 223 a && is_continuation b
    then (a ∷ b ∷ [], 1)
    else if within 224 239 a && second_of_three a b && is_continuation c
    then (a ∷ b ∷ c ∷ [], 2)
    else (replacement, 0)
first_rune a (b ∷ c ∷ d ∷ s) =
    if ltb a 128
    then (a ∷ [], 0)
    else if within 194 223 a && is_continuation b
    then (a ∷ b ∷ [], 1)
    else if within 224 239 a && second_of_three a b && is_continuation c
    then (a ∷ b ∷ c ∷ [], 2)
    else if within 240 244 a && second_of_four a b && is_continuation c && is_continuation d
    then (a ∷ b ∷ c ∷ d ∷ [], 3)
    else (replacement, 0)

-- The runes of a text, each in UTF-8, behind so many bytes of the rune at hand.
unfoldable pub runes_behind : ℕ → Bytes → List Bytes
runes_behind k [] = []
runes_behind zero (c ∷ s) = let rune = first_rune c s in rune.0 ∷ runes_behind rune.1 s
runes_behind (suc k) (c ∷ s) = runes_behind k s

unfoldable pub runes : Bytes → List Bytes
unfolding runes_behind
runes s = runes_behind zero s

unfoldable pub text_of : List Bytes → Bytes
text_of [] = []
text_of (r ∷ rs) = r ++ text_of rs

unfoldable pub compute_preview : Bytes → Bytes
unfolding runes text_of
compute_preview content =
    if ltb 100 (length (runes content)) then text_of (take 100 (runes content)) else content
