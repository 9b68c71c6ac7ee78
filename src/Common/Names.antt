-- ===== src/Common/Names.antt =====
-- common/constants.go, and ValidateName, RequireDir and ValidateContentLength of
-- common/pathutil.go.
pub mod Safe
use echolist_backend.Base.{
  ℕ, Bool, ◌||◌, [], any, length, ltb, ◌==◌, if◌then◌else◌, Bytes, bytes, str_eq,
}
use echolist_backend.Base.Action.{ok, err}
use echolist_backend.Common.Errors.{
  invalid_argument, not_found, new_error, Check, name_empty, name_too_long, name_has_separator,
  name_is_dots, name_has_null, directory_does_not_exist, path_is_not_directory, content_too_large,
}

abbrev pub max_note_content_bytes : ℕ
max_note_content_bytes = 1048576

abbrev pub max_name_len : ℕ
max_name_len = 255

abbrev pub max_task_description_bytes : ℕ
max_task_description_bytes = 1024

abbrev pub max_subtask_description_bytes : ℕ
max_subtask_description_bytes = 1024

abbrev pub max_tasks_per_list : ℕ
max_tasks_per_list = 1000

abbrev pub max_subtasks_per_task : ℕ
max_subtasks_per_task = 100

-- strings.ContainsRune, of an ASCII character.
abbrev pub contains_byte : ℕ → Bytes → Bool
contains_byte b s = any (λ c. c == b) s

unfoldable pub validate_name : Bytes → Check
validate_name name =
    if str_eq name []
    then err (new_error invalid_argument name_empty)
    else if ltb max_name_len (length name)
    then err (new_error invalid_argument name_too_long)
    else if any (λ c. c == b'/' || c == 92) name
    then err (new_error invalid_argument name_has_separator)
    else if str_eq name (bytes ".") || str_eq name (bytes "..")
    then err (new_error invalid_argument name_is_dots)
    else if contains_byte 0 name
    then err (new_error invalid_argument name_has_null)
    else ok tt

-- What os.Stat finds.
pub data Stat : Type 0 where
  missing file directory : Stat

unfoldable pub require_dir : Stat → Check
require_dir missing = err (new_error not_found directory_does_not_exist)
require_dir file = err (new_error not_found path_is_not_directory)
require_dir directory = ok tt

unfoldable pub validate_content_length : Bytes → ℕ → Check
validate_content_length text max =
    if ltb max (length text) then err (new_error invalid_argument content_too_large) else ok tt
