-- ===== src/Base/Substrings.antt =====
-- strings.HasPrefix and strings.Contains, by what stands around the text found.
use mathlib.Core.Path.{◌≡◌, refl, ap, ◌∙◌}
use mathlib.Core.Logic.{◌↔◌, inl, inr}
use mathlib.Core.Bool.{true}
use mathlib.Core.List.{[], ◌∷◌, ◌++◌}
use native.Mathlib.Omega.{arith}
use echolist_backend.Base.Tests.{Bool-cases}
use echolist_backend.Base.Lists.{length, drop}
use echolist_backend.Base.Text.{Bytes, has_prefix, contains_text}

pub prefix-rest : (p s : Bytes) → has_prefix p s ≡ true → s ≡ p ++ drop (length p) s
unfolding has_prefix
prefix-rest [] s h = refl
prefix-rest (c ∷ p) [] h = ground arith
prefix-rest (c ∷ p) (y ∷ s) h = ground (arith, prefix-rest p s)

pub prefix-append : (p s : Bytes) → has_prefix p (p ++ s) ≡ true
unfolding has_prefix
prefix-append [] s = refl
prefix-append (c ∷ p) s = ground (arith, prefix-append p s)

-- A text stands somewhere in another.
abbrev pub Occurs : Bytes → Bytes → Type 0
Occurs p s = (before : Bytes) × (after : Bytes) × (s ≡ before ++ (p ++ after))

contains_text-Occurs : (p s : Bytes) → contains_text p s ≡ true → Occurs p s
unfolding contains_text
contains_text-Occurs p [] h = ([], drop (length p) [], prefix-rest p [] h)
contains_text-Occurs p (c ∷ s) h = elim (Bool-cases (has_prefix p (c ∷ s))) [
  | inl e ↦ ([], drop (length p) (c ∷ s), prefix-rest p (c ∷ s) e)
  | inr e ↦
      let (before, after, found) = contains_text-Occurs p s (ground arith) in
      (c ∷ before, after, ap (λ t. c ∷ t) found)
]

prefix-contains_text : (p s : Bytes) → has_prefix p s ≡ true → contains_text p s ≡ true
unfolding contains_text
prefix-contains_text p [] h = h
prefix-contains_text p (c ∷ s) h = ground arith

contains_text-around : (p before after : Bytes) → contains_text p (before ++ (p ++ after)) ≡ true
unfolding contains_text
contains_text-around p [] after = prefix-contains_text p (p ++ after) (prefix-append p after)
contains_text-around p (c ∷ before) after = ground (arith, contains_text-around p before after)

pub contains_text_iff : (p s : Bytes) → (contains_text p s ≡ true) ↔ Occurs p s
contains_text_iff p s = (
  contains_text-Occurs p s,
  λ (before, after, e). ap (contains_text p) e ∙ contains_text-around p before after,
)
