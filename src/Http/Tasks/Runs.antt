-- ===== src/Http/Tasks/Runs.antt =====
-- Which requests a task makes for the replies that come, and what its callback is given.
use mtxclient.Shared.{ℕ, suc, ◌≡◌, ◌↔◌, ◌⊎◌, inl, inr, refl, Bool, true, false, List, [], ◌∷◌}
use mtxclient.Http.Tasks.{Task, done, ask, Reply}
use mtxclient.Http.Directory.{is_missing}
use mtxclient.Http.Replies.{Reader, prepare_callback}
use mtxclient.Http.Replies.Results.{prepare_callback-missing_iff}

-- The paths of the requests of a task, where the server gives the replies in turn.
unfoldable pub requests {ℓ} : {R : Type ℓ} → (ℕ → Reply) → Task R → List (List ℕ)
requests replies (done r) = []
requests replies (ask call next) =
    call.endpoint ∷ requests (λ n. replies (suc n)) (next (replies 0))

-- What its callback is given in the end.
unfoldable pub result {ℓ} : {R : Type ℓ} → (ℕ → Reply) → Task R → R
result replies (done r) = r
result replies (ask call next) = result (λ n. replies (suc n)) (next (replies 0))

-- A reply without the endpoint: coeurl reports no error, and the status is 404 or 400.
abbrev pub IsMissing : Reply → Type 0
IsMissing r = (r.error_code ≡ 0) × ((r.status_code ≡ 404) ⊎ (r.status_code ≡ 400))

abbrev pub IsNotFound : Reply → Type 0
IsNotFound r = (r.error_code ≡ 0) × (r.status_code ≡ 404)

pub iff_cases :
    {A : Type 0} (test : Bool) → (test ≡ true) ↔ A → (A × (test ≡ true)) ⊎ ((¬ A) × (test ≡ false))
iff_cases true (to, from) = inl (to refl, refl)
iff_cases false (to, from) = inr (λ a. cc (from a), refl)

module _ {ℓ κ} {T : Type ℓ} {E : Type κ} (responses : Reader T) (errors : Reader E) where
  pub IsMissing-cases :
      (r : Reply)
      → (IsMissing r × (is_missing (prepare_callback responses errors r).error ≡ true))
        ⊎ ((¬ IsMissing r) × (is_missing (prepare_callback responses errors r).error ≡ false))
  IsMissing-cases r = iff_cases _ (prepare_callback-missing_iff responses errors r)

abbrev pub rest : (ℕ → Reply) → ℕ → Reply
rest replies n = replies (suc n)

-- The first request is followed by the second exactly where its reply misses the endpoint, and the callback is
-- given what the last reply says.
abbrev pub FallsBack {ℓ} :
    {R : Type ℓ} → (ℕ → Reply) → Task R → List ℕ → List ℕ → (Reply → R) → Type ℓ
FallsBack replies task first second answer =
    (IsMissing (replies 0)
      × (requests replies task ≡ first ∷ (second ∷ []))
      × (result replies task ≡ answer (replies 1)))
    ⊎ ((¬ IsMissing (replies 0))
        × (requests replies task ≡ first ∷ [])
        × (result replies task ≡ answer (replies 0)))
