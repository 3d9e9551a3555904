-- ===== src/Errors/Names.antt =====
-- Names and error codes, back and forth.
use mtxclient.Shared.{
  String, ◌≡◌, ◌≢◌, ◌∙◌, ◌↔◌, refl, sym, ap, inl, inr, true, some, List, [], ◌∷◌, all, str_eq,
}
use mtxclient.Shared.Ladder.{ladder, ladder_sound, ladder-some}
use mtxclient.Errors.{
  ErrorCode, from_string, to_string, m_unrecognized, m_unknown, m_forbidden, m_unknown_token,
  m_bad_json, m_not_json, m_not_found, m_limit_exceeded, m_user_in_use, m_invalid_username,
  m_room_in_use, m_invalid_room_state, m_bad_pagination, m_threepid_in_use, m_threepid_not_found,
  m_server_not_trusted, m_missing_token, m_invalid_signature, m_exclusive,
}

-- The tests of `from_string`, in its order.
abbrev names : List (String × ErrorCode)
names =
    ("M_FORBIDDEN", m_forbidden)
    ∷ ("M_UNKNOWN_TOKEN", m_unknown_token)
    ∷ ("M_BAD_JSON", m_bad_json)
    ∷ ("M_NOT_JSON", m_not_json)
    ∷ ("M_NOT_FOUND", m_not_found)
    ∷ ("M_LIMIT_EXCEEDED", m_limit_exceeded)
    ∷ ("M_USER_IN_USE", m_user_in_use)
    ∷ ("M_INVALID_USERNAME", m_invalid_username)
    ∷ ("M_ROOM_IN_USE", m_room_in_use)
    ∷ ("M_INVALID_ROOM_STATE", m_invalid_room_state)
    ∷ ("M_BAD_PAGINATION", m_bad_pagination)
    ∷ ("M_THREEPID_IN_USE", m_threepid_in_use)
    ∷ ("M_THREEPID_NOT_FOUND", m_threepid_not_found)
    ∷ ("M_SERVER_NOT_TRUSTED", m_server_not_trusted)
    ∷ ("M_MISSING_TOKEN", m_missing_token)
    ∷ ("M_INVALID_SIGNATURE", m_invalid_signature)
    ∷ ("M_EXCLUSIVE", m_exclusive)
    ∷ ("M_UNKNOWN", m_unknown)
    ∷ []

names_agree : all (λ e. str_eq (to_string e.1) e.0) names ≡ true
unfolding to_string
names_agree = refl

from_string-to_string : (c : ErrorCode) → from_string (to_string c) ≡ c
unfolding from_string to_string
from_string-to_string m_unrecognized = refl
from_string-to_string _ = refl

-- The tests end in the branch of `m_unrecognized`.
from_string-ladder :
    (code : String) → ladder names (some m_unrecognized) code ≡ some (from_string code)
unfolding from_string
from_string-ladder code = ladder-some names m_unrecognized code

-- The name of a code other than `m_unrecognized` is the one text that is read as this code.
pub from_string_iff :
    (code : String) (c : ErrorCode)
    → c ≢ m_unrecognized
    → (from_string code ≡ c) ↔ (code ≡ to_string c)
from_string_iff code c h = (to, λ e. rw e (from_string-to_string c))
  where
    to : from_string code ≡ c → code ≡ to_string c
    to e =
        elim (ladder_sound to_string names (some m_unrecognized) code c names_agree
          (from_string-ladder code ∙ ap some e)) [
            | inl same ↦ sym same
            | inr last ↦ absurd (h (cc last))
          ]
