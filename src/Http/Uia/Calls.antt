-- ===== src/Http/Uia/Calls.antt =====
-- What a handler sends while the user authenticates.
use mathlib.Core.List.{append-nil}
use mtxclient.Shared.{
  ℕ, ◌≡◌, refl, ap, Bool, Bool-cases, inl, inr, true, false, Option, none, some, List, [], ◌∷◌,
  ◌++◌, map, if◌then◌else◌, codes, arith, ◌==◌, ◌&&◌,
}
use mtxclient.Http.Replies.{ClientError}
use mtxclient.Http.Uia.{
  is_empty_json, no_auth, put_last, with_auth, registration_request, registration, prompts,
  uia_calls, delete_devices, prompts_with_flows,
}
use mtxclient.Http.{Call, Method, post, Body, strings, object, Fields, end, field}

-- The fields of an object, in a list.
unfoldable pub fields_of : Fields → List (List ℕ × Body)
fields_of end = []
fields_of (field key value fields) = (key, value) ∷ fields_of fields

-- The field that an authentication adds, where there is something in it.
unfoldable pub auth_of : Body → List (List ℕ × Body)
auth_of auth = if is_empty_json auth then [] else (codes "auth", auth) ∷ []

fields_of-put_last :
    (key : List ℕ) (value : Body) (fields : Fields)
    → fields_of (put_last key value fields) ≡ fields_of fields ++ (key, value) ∷ []
unfolding fields_of put_last
fields_of-put_last key value end = refl
fields_of-put_last key value (field other held fields) =
    ap (λ rest. (other, held) ∷ rest) (fields_of-put_last key value fields)

fields_of-with_auth :
    (fields : Fields) (auth : Body)
    → fields_of (with_auth fields auth) ≡ fields_of fields ++ auth_of auth
unfolding with_auth auth_of
fields_of-with_auth fields auth = elim (Bool-cases (is_empty_json auth)) [
  | inl empty ↦ rw (empty, append-nil (fields_of fields)) refl
  | inr full ↦ rw full (fields_of-put_last (codes "auth") auth fields)
]

-- What a server sees of a call: the method, the path, whether the token is sent, and the fields of the body.
abbrev pub Seen : Type 0
Seen = Method × List ℕ × Bool × List (List ℕ × Body)

abbrev body_of : Option Body → List (List ℕ × Body)
body_of (some (object fields)) = fields_of fields
body_of _ = []

abbrev pub seen : Call → Seen
seen call = (call.method, call.endpoint, call.requires_auth, body_of call.body)

decides :
    (status : ℕ) (flows : Bool)
    → ((status ≡ 401) × (flows ≡ true) → (status == 401 && flows) ≡ true)
      × (¬ ((status ≡ 401) × (flows ≡ true)) → (status == 401 && flows) ≡ false)
decides status flows = (λ h. ground (arith, h), λ h. ground (arith, h))

module _ {κ} {E : Type κ} where
  -- A reply that asks for a stage: status 401, with flows where these are looked at.
  abbrev pub IsPrompt : (E → Bool) → Option (ClientError E) → Type 0
  IsPrompt has_flows none = ¬ Unit {0}
  IsPrompt has_flows (some e) = (e.status_code ≡ 401) × (has_flows e.matrix_error ≡ true)

  -- The authentications that are sent: those after the replies that ask for a stage, up to the first that does
  -- not, or to the last that came.
  pub data Stages (has_flows : E → Bool)
      : List (Option (ClientError E) × Body) → List Body → Type κ where
    waits : Stages has_flows [] []
    ends :
        {err : Option (ClientError E)} {auth : Body} {turns : List (Option (ClientError E) × Body)}
        → ¬ IsPrompt has_flows err
        → Stages has_flows ((err, auth) ∷ turns) []
    asks :
        {err : Option (ClientError E)} {auth : Body} {turns : List (Option (ClientError E) × Body)}
        {auths : List Body}
        → IsPrompt has_flows err
        → Stages has_flows turns auths
        → Stages has_flows ((err, auth) ∷ turns) (auth ∷ auths)

  -- A test of a reply that decides `IsPrompt`.
  abbrev Decides : (E → Bool) → (Option (ClientError E) → Bool) → Type κ
  Decides has_flows is_prompted =
      (err : Option (ClientError E))
      → (IsPrompt has_flows err → is_prompted err ≡ true)
        × (¬ IsPrompt has_flows err → is_prompted err ≡ false)

  prompts_with_flows-Decides :
      (has_flows : E → Bool) → Decides has_flows (prompts_with_flows has_flows)
  unfolding prompts_with_flows
  prompts_with_flows-Decides has_flows none = (λ h. absurd (h tt), λ h. refl)
  prompts_with_flows-Decides has_flows (some e) = decides e.status_code (has_flows e.matrix_error)

  prompts-Decides : Decides (λ e. true) prompts
  unfolding prompts
  prompts-Decides none = (λ h. absurd (h tt), λ h. refl)
  prompts-Decides (some e) = (λ h. ground (arith, h), λ h. ground (arith, h))

  uia_calls-repeats :
      (next_ : Body → Call) (has_flows : E → Bool) (is_prompted : Option (ClientError E) → Bool)
      (method : Method) (path : List ℕ) (requires_auth : Bool) (request : List (List ℕ × Body))
      (auth : Body) {turns : List (Option (ClientError E) × Body)} {auths : List Body}
      → Decides has_flows is_prompted
      → ((a : Body) → seen (next_ a) ≡ (method, path, requires_auth, request ++ auth_of a))
      → Stages has_flows turns auths
      → map seen (uia_calls next_ is_prompted auth turns)
        ≡ map (λ a. (method, path, requires_auth, request ++ auth_of a)) (auth ∷ auths)
  unfolding uia_calls
  uia_calls-repeats next_ f test m p r request auth d h waits = ap (λ call. call ∷ []) (h auth)
  uia_calls-repeats next_ f test m p r request auth d h (ends {err = err} other) =
      rw ((d err).1 other) (ap (λ call. call ∷ []) (h auth))
  uia_calls-repeats next_ f test m p r request auth d h (asks {err = err} {auth = a} again later) =
      rw ((d err).0 again) (cc (h auth, uia_calls-repeats next_ f test m p r request a d h later))

  -- A registration and a deletion of devices post their request without an authentication first, the registration
  -- without the token and the deletion with it, and then post the same request once more with each authentication
  -- that is given, as long as the replies before it ask for another stage: for a registration every status of 401,
  -- for a deletion a 401 that lists flows. After the first other reply nothing is sent. An authentication that is
  -- an empty JSON value adds no field.
  pub uia_calls-Stages :
      (user pass name : List ℕ) (device_ids : List (List ℕ)) (has_flows : E → Bool)
      (turns : List (Option (ClientError E) × Body)) (registering deleting : List Body)
      → Stages (λ e. true) turns registering
      → Stages has_flows turns deleting
      → (map seen (uia_calls (registration user pass name) prompts no_auth turns)
          ≡ map
              (λ a. (
                post,
                codes "/client/v3/register",
                false,
                fields_of (registration_request user pass name) ++ auth_of a,
              ))
              (no_auth ∷ registering))
        × (map seen
              (uia_calls (delete_devices device_ids) (prompts_with_flows has_flows) no_auth turns)
            ≡ map
                (λ a. (
                  post,
                  codes "/client/v3/delete_devices",
                  true,
                  (codes "devices", strings device_ids) ∷ auth_of a,
                ))
                (no_auth ∷ deleting))
  unfolding registration delete_devices fields_of
  uia_calls-Stages user pass name device_ids has_flows turns registering deleting r d = (
    uia_calls-repeats (registration user pass name) (λ e. true) prompts post
        (codes "/client/v3/register") false (fields_of (registration_request user pass name))
        no_auth prompts-Decides
        (λ a.
          ap (λ fields. (post, codes "/client/v3/register", false, fields))
            (fields_of-with_auth (registration_request user pass name) a))
        r,
    uia_calls-repeats (delete_devices device_ids) has_flows (prompts_with_flows has_flows) post
        (codes "/client/v3/delete_devices") true ((codes "devices", strings device_ids) ∷ [])
        no_auth (prompts_with_flows-Decides has_flows)
        (λ a.
          ap (λ fields. (post, codes "/client/v3/delete_devices", true, fields))
            (fields_of-with_auth (field (codes "devices") (strings device_ids) end) a))
        d,
  )
