-- ===== src/Errors.antt =====
-- The error codes of include/mtx/lightweight_error.hpp and their names in lib/structs/errors.cpp.
pub mod Names
mod Examples
use mtxclient.Shared.{String, str_eq, if◌then◌else◌}

pub data ErrorCode : Type 0 where
  m_unrecognized : ErrorCode
  m_unknown : ErrorCode
  m_forbidden : ErrorCode
  m_unknown_token : ErrorCode
  m_bad_json : ErrorCode
  m_not_json : ErrorCode
  m_not_found : ErrorCode
  m_limit_exceeded : ErrorCode
  m_user_in_use : ErrorCode
  m_invalid_username : ErrorCode
  m_room_in_use : ErrorCode
  m_invalid_room_state : ErrorCode
  m_bad_pagination : ErrorCode
  m_threepid_in_use : ErrorCode
  m_threepid_not_found : ErrorCode
  m_server_not_trusted : ErrorCode
  m_missing_token : ErrorCode
  m_invalid_signature : ErrorCode
  m_exclusive : ErrorCode

-- `to_string(ErrorCode)`
unfoldable pub to_string : ErrorCode → String
to_string m_unrecognized = "M_UNRECOGNIZED"
to_string m_forbidden = "M_FORBIDDEN"
to_string m_unknown_token = "M_UNKNOWN_TOKEN"
to_string m_bad_json = "M_BAD_JSON"
to_string m_not_json = "M_NOT_JSON"
to_string m_not_found = "M_NOT_FOUND"
to_string m_limit_exceeded = "M_LIMIT_EXCEEDED"
to_string m_user_in_use = "M_USER_IN_USE"
to_string m_invalid_username = "M_INVALID_USERNAME"
to_string m_room_in_use = "M_ROOM_IN_USE"
to_string m_invalid_room_state = "M_INVALID_ROOM_STATE"
to_string m_bad_pagination = "M_BAD_PAGINATION"
to_string m_threepid_in_use = "M_THREEPID_IN_USE"
to_string m_threepid_not_found = "M_THREEPID_NOT_FOUND"
to_string m_server_not_trusted = "M_SERVER_NOT_TRUSTED"
to_string m_missing_token = "M_MISSING_TOKEN"
to_string m_invalid_signature = "M_INVALID_SIGNATURE"
to_string m_exclusive = "M_EXCLUSIVE"
to_string m_unknown = "M_UNKNOWN"

-- `from_string`
unfoldable pub from_string : String → ErrorCode
from_string code =
    if str_eq code "M_FORBIDDEN"
    then m_forbidden
    else if str_eq code "M_UNKNOWN_TOKEN"
    then m_unknown_token
    else if str_eq code "M_BAD_JSON"
    then m_bad_json
    else if str_eq code "M_NOT_JSON"
    then m_not_json
    else if str_eq code "M_NOT_FOUND"
    then m_not_found
    else if str_eq code "M_LIMIT_EXCEEDED"
    then m_limit_exceeded
    else if str_eq code "M_USER_IN_USE"
    then m_user_in_use
    else if str_eq code "M_INVALID_USERNAME"
    then m_invalid_username
    else if str_eq code "M_ROOM_IN_USE"
    then m_room_in_use
    else if str_eq code "M_INVALID_ROOM_STATE"
    then m_invalid_room_state
    else if str_eq code "M_BAD_PAGINATION"
    then m_bad_pagination
    else if str_eq code "M_THREEPID_IN_USE"
    then m_threepid_in_use
    else if str_eq code "M_THREEPID_NOT_FOUND"
    then m_threepid_not_found
    else if str_eq code "M_SERVER_NOT_TRUSTED"
    then m_server_not_trusted
    else if str_eq code "M_MISSING_TOKEN"
    then m_missing_token
    else if str_eq code "M_INVALID_SIGNATURE"
    then m_invalid_signature
    else if str_eq code "M_EXCLUSIVE"
    then m_exclusive
    else if str_eq code "M_UNKNOWN"
    then m_unknown
    else m_unrecognized
