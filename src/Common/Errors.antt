-- ===== src/Common/Errors.antt =====
-- The errors that the services return (connect.NewError). A message is named for its text; the
-- arguments that are formatted into it are left out.
use echolist_backend.Base.Action.{Result}

-- The connect codes that the program uses.
pub data Code : Type 0 where
  invalid_argument not_found already_exists internal unauthenticated canceled deadline_exceeded :
      Code

pub data Message : Type 0 where
  path_starts_with_slash path_has_backslash path_has_null path_not_clean path_has_dot_dot : Message
  cannot_resolve_path path_escapes_data_dir : Message
  name_empty name_too_long name_has_separator name_is_dots name_has_null : Message
  directory_does_not_exist path_is_not_directory : Message
  content_too_large : Message
  invalid_uuid : Message
  too_many_tasks too_many_subtasks due_date_format due_date_required invalid_recurrence : Message
  task_list_not_found main_task_not_found : Message
  failed_to_create_task_list failed_to_get_task_list failed_to_update_task_list : Message
  failed_to_delete_task_list failed_to_list_task_lists failed_to_get_main_task : Message
  failed_to_compute_next_due_date failed_to_list_upcoming from_date_invalid : Message
  context_canceled context_deadline_exceeded : Message
  invalid_credentials failed_access_token failed_refresh_token invalid_refresh_token : Message
  note_already_exists note_not_found failed_to_write_note failed_to_stat_note failed_to_read_note :
      Message
  failed_to_persist_note failed_to_query_note failed_to_delete_note failed_to_list_notes : Message
  failed_to_rename_note failed_to_update_note : Message
  folder_path_empty folder_exists failed_to_create_folder failed_to_delete_entries : Message
  failed_to_delete_folder failed_to_rename_folder failed_to_update_entries : Message
  failed_to_read_directory failed_to_query_task_lists failed_to_query_notes : Message
  missing_authorization malformed_authorization token_expired invalid_token invalid_token_type :
      Message

-- connect.NewError(code, message)
pub record ConnectError : Type 0 where
  pub code : Code
  pub message : Message

abbrev pub new_error : Code → Message → ConnectError
new_error code message = record { code = code; message = message }

-- A check that returns an error or nil.
abbrev pub Check : Type 0
Check = Result ConnectError (Unit {0})
