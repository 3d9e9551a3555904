-- ===== src/Http/Replies/Results.antt =====
-- When a callback is told of an error.
use mtxclient.Shared.{ℕ, ◌≤◌, ◌<◌, ◌≡◌, ◌↔◌, ◌⊎◌, refl, inl, inr, true, none, arith}
use mtxclient.Http.Tasks.{Reply}
use mtxclient.Http.Directory.{is_missing}
use mtxclient.Http.Replies.{Reader, read_error, read_response, prepare_callback, delete_callback}

-- A value of a sum, with the equation that says which.
pub Sum-cases {ℓ κ} :
    {A : Type ℓ} {B : Type κ} (x : A ⊎ B) → ((a : A) × (x ≡ inl a)) ⊎ ((b : B) × (x ≡ inr b))
Sum-cases (inl a) = inl (a, refl)
Sum-cases (inr b) = inr (b, refl)

abbrev pub IsSuccess : Reply → Type 0
IsSuccess r = (r.error_code ≡ 0) × (200 ≤ r.status_code) × (r.status_code < 300)

module _ {ℓ κ} {T : Type ℓ} {E : Type κ} (responses : Reader T) (errors : Reader E)
    (r : Reply) where
  prepare_callback-none_iff :
      ((prepare_callback responses errors r).error ≡ none)
      ↔ (IsSuccess r × (responses.read r.body ≡ inr (prepare_callback responses errors r).response))
  unfolding prepare_callback read_response
  prepare_callback-none_iff = elim (Sum-cases (responses.read r.body)) [
    | inl (what, e) ↦ rw e (ground arith)
    | inr (x, e) ↦ rw e (ground arith)
  ]

  pub prepare_callback-missing_iff :
      (is_missing (prepare_callback responses errors r).error ≡ true)
      ↔ ((r.error_code ≡ 0) × ((r.status_code ≡ 404) ⊎ (r.status_code ≡ 400)))
  unfolding prepare_callback read_response read_error is_missing
  prepare_callback-missing_iff = elim (Sum-cases (responses.read r.body)) [
    | inl (what, e) ↦ elim (Sum-cases (errors.read r.body)) [
      | inl (what', f) ↦ rw (e, f) (ground arith)
      | inr (y, f) ↦ rw (e, f) (ground arith)
    ]
    | inr (x, e) ↦ elim (Sum-cases (errors.read r.body)) [
      | inl (what', f) ↦ rw (e, f) (ground arith)
      | inr (y, f) ↦ rw (e, f) (ground arith)
    ]
  ]

  delete_callback-none_iff :
      (error_code status_code : ℕ)
      → (delete_callback errors error_code status_code r ≡ none) ↔ IsSuccess r
  unfolding delete_callback
  delete_callback-none_iff error_code status_code = ground arith

  -- A callback gets no error exactly where coeurl reports none, the status is between 200 and 299 and the body is
  -- read, and then the response is what was read; the error of a reply that makes the client fall back to another
  -- endpoint is that of a status of 404 or 400; and a deletion has no error at the statuses from 200 to 299,
  -- whatever its body.
  pub callbacks_iff :
      (error_code status_code : ℕ)
      → (((prepare_callback responses errors r).error ≡ none) ↔ (
          IsSuccess r
          × (responses.read r.body ≡ inr (prepare_callback responses errors r).response)))
        × ((is_missing (prepare_callback responses errors r).error ≡ true)
            ↔ ((r.error_code ≡ 0) × ((r.status_code ≡ 404) ⊎ (r.status_code ≡ 400))))
        × ((delete_callback errors error_code status_code r ≡ none) ↔ IsSuccess r)
  callbacks_iff error_code status_code = (
    prepare_callback-none_iff,
    prepare_callback-missing_iff,
    delete_callback-none_iff error_code status_code,
  )
