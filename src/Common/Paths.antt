-- ===== src/Common/Paths.antt =====
-- common/pathutil.go: paths below the data directory.
pub mod Inside
pub mod Climbing
use echolist_backend.Base.{
  ℕ, zero, suc, ◌+◌, Bool, true, false, ◌&&◌, ◌||◌, not, Option, none, some, List, [], ◌∷◌, any,
  length, if◌then◌else◌, Bytes, str_eq,
}
use echolist_backend.Base.Action.{Result, ok, err}
use echolist_backend.Common.Errors.{
  ConnectError, invalid_argument, new_error, Check, path_starts_with_slash, path_has_backslash,
  path_has_null, path_not_clean, path_has_dot_dot, cannot_resolve_path, path_escapes_data_dir,
}
use echolist_backend.Common.Filepath.{split, dot, dot_dot, is_rooted, clean, join, dir, base, rel}
use echolist_backend.Common.Names.{contains_byte, Stat}

-- filepath.EvalSymlinks: the real path, os.ErrNotExist, or another error.
pub data Resolved : Type 0 where
  found : Bytes → Resolved
  not_exist other_error : Resolved

-- What a request sees of the file system.
pub record Os : Type 0 where
  pub eval_symlinks : Bytes → Resolved
  pub stat : Bytes → Stat

abbrev pub not_dot_dot : Option Bytes → Bool
not_dot_dot none = false
not_dot_dot (some r) =
    if str_eq r dot then false else not (any (λ part. str_eq part dot_dot) (split r))

unfoldable pub is_sub_path : Bytes → Bytes → Bool
unfolding rel split
is_sub_path base candidate = not_dot_dot (rel base candidate)

unfoldable pub reject_bad_relative_path : Bytes → Check
unfolding clean split
reject_bad_relative_path [] = ok tt
reject_bad_relative_path (c ∷ s) =
    let p = c ∷ s in
    if is_rooted p
    then err (new_error invalid_argument path_starts_with_slash)
    else if contains_byte 92 p
    then err (new_error invalid_argument path_has_backslash)
    else if contains_byte 0 p
    then err (new_error invalid_argument path_has_null)
    else if not (str_eq (clean p) p)
    then err (new_error invalid_argument path_not_clean)
    else if any (λ seg. str_eq seg dot_dot) (split p)
    then err (new_error invalid_argument path_has_dot_dot)
    else ok tt

-- resolved = filepath.Join(resolved, tail[i]), from the last entry of tail to the first; here the
-- last entry stands first.
unfoldable pub join_tail : Bytes → List Bytes → Bytes
unfolding join
join_tail resolved [] = resolved
join_tail resolved (name ∷ tail) = join_tail (join resolved name) tail

abbrev pub contained : Bytes → Bool → Option Bytes → Result ConnectError Bytes
contained data_dir allow_root none = err (new_error invalid_argument cannot_resolve_path)
contained data_dir allow_root (some path) =
    if allow_root && str_eq path data_dir || is_sub_path data_dir path
    then ok path
    else err (new_error invalid_argument path_escapes_data_dir)

abbrev pub and_then : Check → Result ConnectError Bytes → Result ConnectError Bytes
and_then (ok u) r = r
and_then (err e) r = err e

module _ (os : Os) where
  -- The loop of resolveSymlinks: `none` is an error. `tail` has its last entry first. The fuel
  -- bounds the rounds.
  unfoldable pub resolve_up : ℕ → Bytes → List Bytes → Option Bytes
  unfolding dir base join_tail
  resolve_up zero cur tail = none
  resolve_up (suc fuel) cur tail =
      let parent = dir cur in
      let tail' = base cur ∷ tail in
      let further = resolve_up fuel parent tail' in
      if str_eq parent cur then none else elim (os.eval_symlinks parent) [
        | found resolved ↦ some (join_tail resolved tail')
        | not_exist ↦ further
        | other_error ↦ none
      ]

  unfoldable pub resolve_symlinks : Bytes → Option Bytes
  unfolding resolve_up
  resolve_symlinks path = elim (os.eval_symlinks path) [
    | found resolved ↦ some resolved
    | not_exist ↦ resolve_up (length path + 2) path []
    | other_error ↦ none
  ]

  unfoldable pub validate_path_or_root : Bytes → Bytes → Bool → Result ConnectError Bytes
  unfolding reject_bad_relative_path resolve_symlinks join clean is_sub_path
  validate_path_or_root data_dir relative_path allow_root =
      and_then (reject_bad_relative_path relative_path)
        (contained data_dir allow_root (resolve_symlinks (join data_dir (clean relative_path))))

  -- ValidatePath
  unfoldable pub validate_path : Bytes → Bytes → Result ConnectError Bytes
  unfolding validate_path_or_root
  validate_path data_dir relative_path = validate_path_or_root data_dir relative_path false

  unfoldable pub validate_parent_dir : Bytes → Bytes → Result ConnectError Bytes
  unfolding validate_path_or_root
  validate_parent_dir data_dir relative_path = validate_path_or_root data_dir relative_path true
