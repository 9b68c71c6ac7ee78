-- ===== src/Notes/Preview/Bounds.antt =====
-- How long a preview is.
use echolist_backend.Base.{
  ℕ, zero, suc, ◌+◌, ◌*◌, ◌≤◌, List, [], ◌∷◌, ◌++◌, take, length, ltb, if◌then◌else◌, Bytes,
  length-append, drop, ◌≡◌, refl, ap, ◌∙◌, Bool-cases, inl, inr, arith,
}
use mathlib.Core.List.{append_assoc}
use echolist_backend.Notes.Preview.{first_rune, runes_behind, runes, text_of, compute_preview}

first_rune-le : (a : ℕ) (s : Bytes) → (length (first_rune a s).0 ≤ 4) × ((first_rune a s).1 ≤ 3)
first_rune-le a [] = ground arith
first_rune-le a (b ∷ []) = ground arith
first_rune-le a (b ∷ c ∷ []) = ground arith
first_rune-le a (b ∷ c ∷ d ∷ s) = ground arith

-- No rune is left out: every one takes four bytes at most.
length-runes_behind : (k : ℕ) (s : Bytes) → length s ≤ k + 4 * length (runes_behind k s)
unfolding runes_behind
length-runes_behind k [] = omega arith
length-runes_behind zero (c ∷ s) =
    ground (arith, first_rune-le c s, length-runes_behind (first_rune c s).1 s)
length-runes_behind (suc k) (c ∷ s) = ground (arith, length-runes_behind k s)

length-text_of-take : (n k : ℕ) (s : Bytes) → length (text_of (take n (runes_behind k s))) ≤ 4 * n
unfolding runes_behind text_of
length-text_of-take zero k s = omega arith
length-text_of-take (suc n) k [] = omega arith
length-text_of-take (suc n) zero (c ∷ s) = ground (
  arith,
  first_rune-le c s,
  length-text_of-take n (first_rune c s).1 s,
  length-append (first_rune c s).0 (text_of (take n (runes_behind (first_rune c s).1 s))),
)
length-text_of-take (suc n) (suc k) (c ∷ s) = length-text_of-take (suc n) k s

-- The preview of `n` runes.
abbrev first_runes : ℕ → Bytes → Bytes
first_runes n content =
    if ltb n (length (runes content)) then text_of (take n (runes content)) else content

length-first_runes : (n : ℕ) (content : Bytes) → length (first_runes n content) ≤ 4 * n
unfolding runes
length-first_runes n content =
    ground (arith, length-runes_behind 0 content, length-text_of-take n 0 content)

text_of-take-drop :
    (n : ℕ) (rs : List Bytes) → text_of (take n rs) ++ text_of (drop n rs) ≡ text_of rs
unfolding text_of
text_of-take-drop zero rs = refl
text_of-take-drop (suc n) [] = refl
text_of-take-drop (suc n) (r ∷ rs) =
    append_assoc r (text_of (take n rs)) (text_of (drop n rs))
    ∙ ap (λ t. r ++ t) (text_of-take-drop n rs)

drop-none : (n : ℕ) (rs : List Bytes) → length rs ≤ n → drop n rs ≡ []
drop-none zero [] h = refl
drop-none zero (r ∷ rs) h = absurd (omega arith)
drop-none (suc n) [] h = refl
drop-none (suc n) (r ∷ rs) h = drop-none n rs (omega arith)

append_none : (s : Bytes) → s ++ text_of [] ≡ s
unfolding text_of
append_none [] = refl
append_none (c ∷ s) = ap (λ t. c ∷ t) (append_none s)

first_runes-then_rest :
    (n : ℕ) (content : Bytes)
    → text_of (runes content) ≡ content
    → first_runes n content ++ text_of (drop n (runes content)) ≡ content
first_runes-then_rest n content h = elim (Bool-cases (ltb n (length (runes content)))) [
  | inl e ↦ ground (arith, text_of-take-drop n (runes content))
  | inr e ↦ ground (arith, drop-none n (runes content), append_none content)
]

-- For a text that is valid UTF-8 (its runes give it back): the preview is at most 400 bytes long, and
-- it is the text without the runes behind the first 100.
pub compute_preview_lem :
    (content : Bytes)
    → text_of (runes content) ≡ content
    → (length (compute_preview content) ≤ 400)
      × (compute_preview content ++ text_of (drop 100 (runes content)) ≡ content)
unfolding compute_preview
compute_preview_lem content h =
    (length-first_runes 100 content, first_runes-then_rest 100 content h)
