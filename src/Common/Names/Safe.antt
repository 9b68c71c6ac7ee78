-- ===== src/Common/Names/Safe.antt =====
-- The names that ValidateName of common/pathutil.go accepts.
use echolist_backend.Base.{
  ℕ, ◌≤◌, false, ◌||◌, [], ◌∷◌, any, All, length, ◌==◌, Bytes, bytes, str_eq_iff, ◌≡◌, ◌≢◌, ◌↔◌,
  refl, arith,
}
use echolist_backend.Base.Action.{ok}
use echolist_backend.Common.Names.{contains_byte, validate_name}
use echolist_backend.Common.Filepath.{split}

-- A byte that neither separates nor ends a path.
abbrev pub IsPlain : ℕ → Type 0
IsPlain c = (c ≢ b'/') × (c ≢ 92) × (c ≢ 0)

-- One segment of a path that names an entry of its directory: filepath.Split finds nothing to split.
abbrev pub IsSafeName : Bytes → Type 0
IsSafeName name =
    (length name ≤ 255)
    × (split name ≡ name ∷ [])
    × All IsPlain name
    × (name ≢ [])
    × (name ≢ bytes ".")
    × (name ≢ bytes "..")

no_separator :
    (s : Bytes)
    → (any (λ c. c == b'/' || c == 92) s ≡ false)
    → (contains_byte 0 s ≡ false)
    → (split s ≡ s ∷ []) × All IsPlain s
unfolding split
no_separator [] h g = (refl, tt)
no_separator (c ∷ s) h g = ground (arith, no_separator s)

plain_only :
    (s : Bytes)
    → All IsPlain s
    → (any (λ c. c == b'/' || c == 92) s ≡ false) × (contains_byte 0 s ≡ false)
plain_only [] h = (refl, refl)
plain_only (c ∷ s) h = ground (arith, plain_only s h.1)

-- A name is accepted exactly if it has 1 to 255 bytes, none of them '/', '\' or zero, so that it is
-- a single segment of a path, and is neither "." nor "..".
pub validate_name_iff : (name : Bytes) → (validate_name name ≡ ok tt) ↔ IsSafeName name
unfolding validate_name
validate_name_iff name = ground (
  arith,
  str_eq_iff name [],
  str_eq_iff name (bytes "."),
  str_eq_iff name (bytes ".."),
  no_separator name,
  plain_only name,
)
