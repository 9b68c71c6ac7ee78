-- ===== src/Tests/Paths.antt =====
-- Runs of the validations of package common, and their theorems at concrete inputs.
use mathlib.Core.Bool.{xor}
use echolist_backend.Base.{
  if◌then◌else◌, some, true, false, [], ◌∷◌, Bytes, bytes, str_eq, ◌≡◌, ◌↔◌, ◌⊎◌, refl, contains,
}
use echolist_backend.Base.Action.{ok, err}
use echolist_backend.Common.Errors.{
  new_error, invalid_argument, path_has_dot_dot, path_escapes_data_dir,
}
use echolist_backend.Common.Filepath.{clean, join}
use echolist_backend.Common.Names.{directory, validate_name}
use echolist_backend.Common.Names.Safe.{IsSafeName, validate_name_iff}
use echolist_backend.Common.Paths.{
  Os, found, not_exist, resolve_symlinks, validate_path_or_root, validate_path, validate_parent_dir,
}
use echolist_backend.Common.Paths.Climbing.{Climbs, resolve_symlinks-Climbs}
use echolist_backend.Common.Paths.Inside.{IsCleanRelative, Inside, validate_path_or_root-Inside}

validate_name_iff_example :
    (validate_name (bytes "shopping list") ≡ ok tt) ↔ IsSafeName (bytes "shopping list")
validate_name_iff_example = validate_name_iff (bytes "shopping list")

abbrev data_dir : Bytes
data_dir = bytes "/data"

-- The data directory and its folder "work" exist; "/data/link" leads out.
abbrev disk : Os
disk = record {
  eval_symlinks = λ p.
      if str_eq p (bytes "/data/link")
      then found (bytes "/etc")
      else if contains (bytes "/data" ∷ bytes "/data/work" ∷ []) p
      then found p
      else not_exist;
  stat = λ p. directory;
}

new_note :
    validate_path_or_root disk data_dir (bytes "work/note.md") false
    ≡ ok (bytes "/data/work/note.md")
unfolding validate_path_or_root str_eq contains xor
new_note = refl

leads_out :
    validate_path disk data_dir (bytes "link")
    ≡ err (new_error invalid_argument path_escapes_data_dir)
unfolding validate_path str_eq contains xor
leads_out = refl

climbs_out :
    validate_path disk data_dir (bytes "../etc") ≡ err (new_error invalid_argument path_has_dot_dot)
unfolding validate_path str_eq contains xor
climbs_out = refl

-- The text "." is accepted beside the empty one.
dot_is_root : validate_parent_dir disk data_dir (bytes ".") ≡ ok data_dir
unfolding validate_parent_dir str_eq contains
dot_is_root = refl

validate_path_or_root-Inside_example :
    ((bytes "work/note.md" ≡ []) ⊎ IsCleanRelative (bytes "work/note.md"))
    × (resolve_symlinks disk (join data_dir (clean (bytes "work/note.md")))
        ≡ some (bytes "/data/work/note.md"))
    × (((false ≡ true) × (bytes "/data/work/note.md" ≡ data_dir))
        ⊎ Inside data_dir (bytes "/data/work/note.md"))
validate_path_or_root-Inside_example =
    validate_path_or_root-Inside disk data_dir (bytes "work/note.md") (bytes "/data/work/note.md")
      false new_note

resolve_symlinks-Climbs_example :
    Climbs disk
      (bytes "/data/work/new/note.md")
      []
      (resolve_symlinks disk (bytes "/data/work/new/note.md"))
unfolding str_eq contains
resolve_symlinks-Climbs_example = resolve_symlinks-Climbs disk (bytes "/data/work/new/note.md") refl
