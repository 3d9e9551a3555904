-- ===== src/Http/Session/History.antt =====
-- Which token the requests carry after any sequence of operations on a client.
use mtxclient.Shared.{
  ℕ, ◌≡◌, ◌≢◌, ◌∙◌, refl, ap, ◌⊎◌, inl, inr, Bool, true, false, not, ◌&&◌, Option, none, some, List,
  [], ◌∷◌, if◌then◌else◌, if_lem, codes, ◌+++◌,
}
use mtxclient.Identifiers.{Identifier}
use mtxclient.Http.Replies.{ClientError}
use mtxclient.Http.Account.{Session, clear, logged_in, logged_out}
use mtxclient.Http.Server.{
  Scheme, without_port, with_port, read_name, set_server, make_client, blank,
}
use mtxclient.Http.Session.{authorization, authorization-send, has_token}
use mtxclient.Http.{Client, Call, send, is_empty}

-- What changes a client: its setters, `clear`, and the callbacks of `login`, `registration` and `logout`.
pub data Operation {κ} (E : Type κ) : Type κ where
  reads_server : (server : List ℕ) → Operation E
  sets_port : (port : ℕ) → Operation E
  sets_user : (user : Identifier) → Operation E
  sets_device_id : (device_id : List ℕ) → Operation E
  sets_access_token : (token : List ℕ) → Operation E
  sets_next_batch_token : (token : List ℕ) → Operation E
  clears : Operation E
  logs_in : (err : Option (ClientError E)) (resp : Session) → Operation E
  logs_out : (err : Option (ClientError E)) → Operation E

-- A step of `set_server` leaves the token.
record SameToken (c : Client) (result : Client × Bool) : Type 0 where
  same : result.0.access_token ≡ c.access_token

with_port-SameToken :
    (c : Client) (s : Scheme) (host : List ℕ) (n : Option ℕ) → SameToken c (with_port c s host n)
unfolding with_port
with_port-SameToken c s host none = record { same = refl }
with_port-SameToken c s host (some n) = record { same = refl }

read_name-SameToken : (c : Client) (s : Scheme) (n : Option ℕ) → SameToken c (read_name c s n)
unfolding read_name
read_name-SameToken c s none = record { same = refl }
read_name-SameToken c s (some n) =
    let plain : SameToken c (without_port c s) = record { same = refl } in
    if_lem (SameToken c) _ (if_lem (SameToken c) _ (with_port-SameToken c s _ _) plain) plain

set_server-token :
    (server : List ℕ) (c : Client) → (set_server server c).0.access_token ≡ c.access_token
unfolding set_server
set_server-token server c = (read_name-SameToken c _ _).same

make_client-SameToken : (server : List ℕ) (port : ℕ) → SameToken blank (make_client server port)
unfolding make_client
make_client-SameToken server port =
    let same = set_server-token server blank in
    if_lem (SameToken blank) (set_server server blank).1
      {a = (record (set_server server blank).0 { port = port }, true)}
      {b = ((set_server server blank).0, false)} (record { same = same }) (record { same = same })

make_client-token : (server : List ℕ) (port : ℕ) → (make_client server port).0.access_token ≡ []
make_client-token server port = (make_client-SameToken server port).same

empty_or_not : (s : List ℕ) → ((s ≡ []) × (is_empty s ≡ true)) ⊎ ((s ≢ []) × (is_empty s ≡ false))
empty_or_not [] = inl (refl, refl)
empty_or_not (c ∷ s) = inr (λ e. cc e, refl)

module _ {κ} {E : Type κ} where
  unfoldable pub apply : Operation E → Client → Client
  apply (reads_server server) c = (set_server server c).0
  apply (sets_port port) c = record c { port = port }
  apply (sets_user user) c = record c { user_id = user }
  apply (sets_device_id device_id) c = record c { device_id = device_id }
  apply (sets_access_token token) c = record c { access_token = token }
  apply (sets_next_batch_token token) c = record c { next_batch_token = token }
  apply clears c = clear c
  apply (logs_in err resp) c = logged_in c err resp
  apply (logs_out err) c = logged_out c err

  -- The client after the operations of a history, the last of which comes first.
  unfoldable pub run : Client → List (Operation E) → Client
  run c [] = c
  run c (op ∷ history) = apply op (run c history)

  -- The operations that say nothing of the token: failures, and a login without a token, are among them.
  pub data Keeps : Operation E → Type κ where
    reading : {server : List ℕ} → Keeps (reads_server server)
    port_set : {port : ℕ} → Keeps (sets_port port)
    user_set : {user : Identifier} → Keeps (sets_user user)
    device_set : {device_id : List ℕ} → Keeps (sets_device_id device_id)
    batch_set : {token : List ℕ} → Keeps (sets_next_batch_token token)
    no_login : {err : ClientError E} {resp : Session} → Keeps (logs_in (some err) resp)
    no_token : {resp : Session} → resp.access_token ≡ [] → Keeps (logs_in none resp)
    no_logout : {err : ClientError E} → Keeps (logs_out (some err))

  -- The token that a history leaves: the last operation that concerns the token decides.
  pub data HasToken : List (Operation E) → List ℕ → Type κ where
    fresh : HasToken [] []
    stored :
        {history : List (Operation E)} {token : List ℕ}
        → HasToken (sets_access_token token ∷ history) token
    cleared : {history : List (Operation E)} → HasToken (clears ∷ history) []
    received :
        {history : List (Operation E)} {resp : Session}
        → resp.access_token ≢ []
        → HasToken (logs_in none resp ∷ history) resp.access_token
    left : {history : List (Operation E)} → HasToken (logs_out none ∷ history) []
    kept :
        {history : List (Operation E)} {op : Operation E} {token : List ℕ}
        → Keeps op
        → HasToken history token
        → HasToken (op ∷ history) token

  abbrev Leaves : Client → List (Operation E) → Type κ
  Leaves c history =
      (token : List ℕ) × HasToken history token × ((run c history).access_token ≡ token)

  Leaves-login :
      (c : Client) (history : List (Operation E)) (resp : Session)
      → Leaves c history
      → Leaves c (logs_in none resp ∷ history)
  unfolding run apply logged_in
  Leaves-login c history resp (token, held, same) = elim (empty_or_not resp.access_token) [
    | inl (gone, test) ↦ (token, kept (no_token gone) held, rw test same)
    | inr (there, test) ↦ (resp.access_token, received there, rw test refl)
  ]

  run-Leaves :
      (c : Client) → c.access_token ≡ [] → (history : List (Operation E)) → Leaves c history
  unfolding run apply clear logged_in logged_out
  run-Leaves c h [] = ([], fresh, h)
  run-Leaves c h (reads_server server ∷ history) =
      let (token, held, same) = run-Leaves c h history in
      (token, kept reading held, set_server-token server (run c history) ∙ same)
  run-Leaves c h (sets_port port ∷ history) =
      let (token, held, same) = run-Leaves c h history in (token, kept port_set held, same)
  run-Leaves c h (sets_user user ∷ history) =
      let (token, held, same) = run-Leaves c h history in (token, kept user_set held, same)
  run-Leaves c h (sets_device_id device_id ∷ history) =
      let (token, held, same) = run-Leaves c h history in (token, kept device_set held, same)
  run-Leaves c h (sets_next_batch_token batch ∷ history) =
      let (token, held, same) = run-Leaves c h history in (token, kept batch_set held, same)
  run-Leaves c h (sets_access_token token ∷ history) = (token, stored, refl)
  run-Leaves c h (clears ∷ history) = ([], cleared, refl)
  run-Leaves c h (logs_in none resp ∷ history) =
      Leaves-login c history resp (run-Leaves c h history)
  run-Leaves c h (logs_in (some err) resp ∷ history) =
      let (token, held, same) = run-Leaves c h history in (token, kept no_login held, same)
  run-Leaves c h (logs_out none ∷ history) = ([], left, refl)
  run-Leaves c h (logs_out (some err) ∷ history) =
      let (token, held, same) = run-Leaves c h history in (token, kept no_logout held, same)

  -- Whatever is called on a client that was constructed, a call that requires it carries the token that the last
  -- operation on the token left: a setter, a login or registration that returned one, `clear`, or a logout. Without
  -- a token, and where the call does not require one, it carries none.
  pub authorization-run :
      (server : List ℕ) (port : ℕ) (history : List (Operation E)) (call : Call)
      → (token : List ℕ) × HasToken history token
        × (authorization (send (run (make_client server port).0 history) call).headers ≡ (
            if call.requires_auth && not (is_empty token)
            then some (codes "Bearer " +++ token)
            else none))
  unfolding has_token
  authorization-run server port history call =
      let (token, held, same) =
        run-Leaves (make_client server port).0 (make_client-token server port) history in
      (
        token,
        held,
        authorization-send (run (make_client server port).0 history) call
            ∙ ap
                (λ t.
                  if call.requires_auth && not (is_empty t)
                  then some (codes "Bearer " +++ t)
                  else none)
                same,
      )
