-- ===== src/Http/Session.antt =====
-- What the requests of a client say of its session.
pub mod History
use mtxclient.Shared.{
  ℕ, ◌≡◌, refl, Bool, true, false, not, ◌&&◌, Option, none, some, List, [], ◌∷◌, if◌then◌else◌,
  codes, ◌+++◌, bytes_eq,
}
use mtxclient.Http.Replies.{ClientError}
use mtxclient.Http.Requests.{Login}
use mtxclient.Http.Account.{
  Session, clear, logged_in, logged_out, login, get_login, well_known, registration_flows,
}
use mtxclient.Http.Uia.{registration}
use mtxclient.Http.{Client, Call, Body, send, prepare_headers, user_agent, is_empty}

-- The authorization that a list of headers has.
unfoldable pub authorization : List (List ℕ × List ℕ) → Option (List ℕ)
authorization [] = none
authorization ((key, value) ∷ headers) =
    if bytes_eq key (codes "Authorization") then some value else authorization headers

unfoldable pub has_token : Client → Bool
has_token c = not (is_empty c.access_token)

-- A request carries the token of the client exactly where its call asks for it and there is one.
authorization-headers :
    (c : Client) (requires_auth : Bool)
    → authorization (prepare_headers c requires_auth)
      ≡ (if requires_auth && has_token c then some (codes "Bearer " +++ c.access_token) else none)
unfolding prepare_headers authorization has_token
authorization-headers c requires_auth = choose (requires_auth && not (is_empty c.access_token))
  where
    choose :
        (test : Bool)
        → authorization (
            if test
            then user_agent ∷ ((codes "Authorization", codes "Bearer " +++ c.access_token) ∷ [])
            else user_agent ∷ [])
          ≡ (if test then some (codes "Bearer " +++ c.access_token) else none)
    choose true = refl
    choose false = refl

pub authorization-send :
    (c : Client) (call : Call)
    → authorization (send c call).headers ≡ (
        if call.requires_auth && has_token c
        then some (codes "Bearer " +++ c.access_token)
        else none)
unfolding send
authorization-send c call = authorization-headers c call.requires_auth

-- After a login or a registration with a token, the calls that require it carry that token, after a logout no
-- call carries one, and a failed login or logout changes nothing. The calls that log in or register, at every stage
-- of the authentication, that ask for the ways to do so, or that look for a server never carry one.
pub authorization-session {κ} :
    {E : Type κ} (c : Client) (call : Call) (resp : Session) (err : ClientError E) (req : Login)
    (user pass name : List ℕ) (auth : Body)
    → call.requires_auth ≡ true
    → is_empty resp.access_token ≡ false
    → (authorization (send (logged_in {E = E} c none resp) call).headers
        ≡ some (codes "Bearer " +++ resp.access_token))
      × (authorization (send (logged_out {E = E} c none) call).headers ≡ none)
      × (send (logged_in c (some err) resp) call ≡ send c call)
      × (send (logged_out c (some err)) call ≡ send c call)
      × (authorization (send c (login req)).headers ≡ none)
      × (authorization (send c (registration user pass name auth)).headers ≡ none)
      × (authorization (send c registration_flows).headers ≡ none)
      × (authorization (send c get_login).headers ≡ none)
      × (authorization (send c well_known).headers ≡ none)
unfolding logged_in logged_out clear login registration registration_flows get_login well_known
    has_token
authorization-session c call resp err req user pass name auth required token = (
  rw (token, authorization-send, required, has_token, token) refl,
  rw (authorization-send, required) refl,
  refl,
  refl,
  authorization-send c (login req),
  authorization-send c (registration user pass name auth),
  authorization-send c registration_flows,
  authorization-send c get_login,
  authorization-send c well_known,
)
