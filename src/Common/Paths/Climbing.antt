-- ===== src/Common/Paths/Climbing.antt =====
-- The loop of resolveSymlinks in common/pathutil.go, without a bound on its rounds.
use echolist_backend.Base.{
  ℕ, zero, suc, ◌+◌, ◌≤◌, Bool, true, false, Option, none, some, List, [], ◌∷◌, length,
  if◌then◌else◌, Bytes, str_eq, str_eq_iff, ◌⊎◌, inl, inr, ◌≡◌, refl, sym, ap, ◌∙◌, arith,
}
use echolist_backend.Common.Filepath.{dot, dir, base}
use echolist_backend.Common.Filepath.Lengths.{dir-shorter}
use echolist_backend.Common.Paths.{
  Os, Resolved, found, not_exist, other_error, join_tail, resolve_up, resolve_symlinks,
}

-- The loop that stands at a path, with the tail it has collected, ends with an answer.
pub data Climbs (os : Os) : Bytes → List Bytes → Option Bytes → Type 0 where
  at_root :
      {cur : Bytes} {tail : List Bytes} → str_eq (dir cur) cur ≡ true → Climbs os cur tail none
  at_found :
      {cur : Bytes} {tail : List Bytes} {resolved : Bytes}
      → str_eq (dir cur) cur ≡ false
      → os.eval_symlinks (dir cur) ≡ found resolved
      → Climbs os cur tail (some (join_tail resolved (base cur ∷ tail)))
  at_error :
      {cur : Bytes} {tail : List Bytes}
      → str_eq (dir cur) cur ≡ false
      → os.eval_symlinks (dir cur) ≡ other_error
      → Climbs os cur tail none
  further :
      {cur : Bytes} {tail : List Bytes} {answer : Option Bytes}
      → str_eq (dir cur) cur ≡ false
      → os.eval_symlinks (dir cur) ≡ not_exist
      → Climbs os (dir cur) (base cur ∷ tail) answer
      → Climbs os cur tail answer

-- So many rounds are enough from a path.
abbrev Enough : ℕ → Bytes → Type 0
Enough n cur = ((cur ≡ dot) × (1 ≤ n)) ⊎ (length cur + 2 ≤ n)

dir-dot : dir dot ≡ dot
unfolding dir str_eq
dir-dot = refl

moves_on : {A : Type 0} (cur : Bytes) → str_eq (dir cur) cur ≡ false → dir cur ≡ cur → A
moves_on cur h e = ground (arith, h, (str_eq_iff (dir cur) cur).1 e)

dir-Enough :
    (n : ℕ) (cur : Bytes) → str_eq (dir cur) cur ≡ false → Enough (suc n) cur → Enough n (dir cur)
dir-Enough n cur h (inl (e, r)) = moves_on cur h (ap dir e ∙ dir-dot ∙ sym e)
dir-Enough n cur h (inr r) = elim (dir-shorter cur) [
  | inl a ↦ inr (omega (arith, a, r))
  | inr (inl a) ↦ inl (a, omega (arith, r))
  | inr (inr a) ↦ moves_on cur h a
]

one_round :
    (os : Os) (cur : Bytes) (tail : List Bytes) (rest : Option Bytes)
    → (str_eq (dir cur) cur ≡ false → Climbs os (dir cur) (base cur ∷ tail) rest)
    → (b : Bool) (x : Resolved) → str_eq (dir cur) cur ≡ b
    → os.eval_symlinks (dir cur) ≡ x
    → Climbs os cur tail (
        if b then none else elim x [
          | found resolved ↦ some (join_tail resolved (base cur ∷ tail))
          | not_exist ↦ rest
          | other_error ↦ none
        ])
one_round os cur tail rest h true x s e = at_root s
one_round os cur tail rest h false (found resolved) s e = at_found s e
one_round os cur tail rest h false not_exist s e = further s e (h s)
one_round os cur tail rest h false other_error s e = at_error s e

resolve_up-Climbs :
    (os : Os) (n : ℕ) (cur : Bytes) (tail : List Bytes)
    → Enough n cur
    → Climbs os cur tail (resolve_up os n cur tail)
unfolding resolve_up
resolve_up-Climbs os zero cur tail (inl (e, r)) = ground (arith, r)
resolve_up-Climbs os zero cur tail (inr r) = ground (arith, r)
resolve_up-Climbs os (suc n) cur tail h =
    one_round os cur tail (resolve_up os n (dir cur) (base cur ∷ tail))
      (λ s. resolve_up-Climbs os n (dir cur) (base cur ∷ tail) (dir-Enough n cur s h))
      (str_eq (dir cur) cur) (os.eval_symlinks (dir cur)) refl refl

-- For a path that does not exist, the loop of resolveSymlinks ends, whatever the file system
-- answers, and what it ends with is what resolve_symlinks returns: the rounds that the model
-- allows, one for each byte of the path and two more, always suffice.
pub resolve_symlinks-Climbs :
    (os : Os) (path : Bytes)
    → os.eval_symlinks path ≡ not_exist
    → Climbs os path [] (resolve_symlinks os path)
unfolding resolve_symlinks
resolve_symlinks-Climbs os path e =
    rw (resolve_symlinks, e) (resolve_up-Climbs os (length path + 2) path [] (inr (omega arith)))
