-- ===== src/Http/Push.antt =====
-- lib/http/client.cpp: the push rules and the pushers of the user.
use mtxclient.Shared.{ℕ, Bool, not, List, [], ◌∷◌, ◌+++◌, codes}
use mtxclient.Utils.{url_encode, query_params}
use mtxclient.Http.Params.{emplace_if}
use mtxclient.Http.{
  Call, Body, boolean, object, end, field, is_empty, decimal, get_call, put_call, post_call,
  delete_call,
}

-- `"?" + query_params(params)`, where there are any
abbrev pub query_of : List (List ℕ × List ℕ) → List ℕ
query_of [] = []
query_of (param ∷ params) = b'?' ∷ query_params (param ∷ params)

unfoldable pub notifications : ℕ → List ℕ → List ℕ → Call
notifications limit from only =
    let params =
      emplace_if (not (is_empty from)) (codes "from") from ((codes "limit", decimal limit) ∷ []) in
    get_call (
      codes "/client/v3/notifications?"
      +++ query_params (emplace_if (not (is_empty only)) (codes "only") only params))

unfoldable pub get_pushrules : Call
get_pushrules = get_call (codes "/client/v3/pushrules/")

unfoldable pub get_pushrule : List ℕ → List ℕ → List ℕ → Call
get_pushrule scope kind rule_id = get_call (
    codes "/client/v3/pushrules/"
    +++ url_encode scope
    +++ codes "/"
    +++ url_encode kind
    +++ codes "/"
    +++ url_encode rule_id)

unfoldable pub delete_pushrules : List ℕ → List ℕ → List ℕ → Call
delete_pushrules scope kind rule_id = delete_call (
    codes "/client/v3/pushrules/"
    +++ url_encode scope
    +++ codes "/"
    +++ url_encode kind
    +++ codes "/"
    +++ url_encode rule_id)

unfoldable pub put_pushrules : List ℕ → List ℕ → List ℕ → Body → List ℕ → List ℕ → Call
put_pushrules scope kind rule_id rule before after =
    let params = emplace_if (not (is_empty before)) (codes "before") before [] in
    let params = emplace_if (not (is_empty after)) (codes "after") after params in
    put_call
      (codes "/client/v3/pushrules/"
        +++ url_encode scope
        +++ codes "/"
        +++ url_encode kind
        +++ codes "/"
        +++ url_encode rule_id
        +++ query_of params)
      rule

unfoldable pub get_pushrules_enabled : List ℕ → List ℕ → List ℕ → Call
get_pushrules_enabled scope kind rule_id = get_call (
    codes "/client/v3/pushrules/"
    +++ url_encode scope
    +++ codes "/"
    +++ url_encode kind
    +++ codes "/"
    +++ url_encode rule_id
    +++ codes "/enabled")

unfoldable pub put_pushrules_enabled : List ℕ → List ℕ → List ℕ → Bool → Call
put_pushrules_enabled scope kind rule_id enabled =
    put_call
      (codes "/client/v3/pushrules/"
        +++ url_encode scope
        +++ codes "/"
        +++ url_encode kind
        +++ codes "/"
        +++ url_encode rule_id
        +++ codes "/enabled")
      (object (field (codes "enabled") (boolean enabled) end))

unfoldable pub get_pushrules_actions : List ℕ → List ℕ → List ℕ → Call
get_pushrules_actions scope kind rule_id = get_call (
    codes "/client/v3/pushrules/"
    +++ url_encode scope
    +++ codes "/"
    +++ url_encode kind
    +++ codes "/"
    +++ url_encode rule_id
    +++ codes "/actions")

unfoldable pub put_pushrules_actions : List ℕ → List ℕ → List ℕ → Body → Call
put_pushrules_actions scope kind rule_id actions =
    put_call
      (codes "/client/v3/pushrules/"
        +++ url_encode scope
        +++ codes "/"
        +++ url_encode kind
        +++ codes "/"
        +++ url_encode rule_id
        +++ codes "/actions")
      actions

unfoldable pub set_pusher : Body → Call
set_pusher req = post_call (codes "/client/v3/pushers/set") req
