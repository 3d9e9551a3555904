-- ===== src/Http/Tasks.antt =====
-- Calls that wait for a reply: a task is a result, or a call and what its callback does.
pub mod Runs
use mtxclient.Shared.{ℕ, List}
use mtxclient.Http.{Call}

-- What coeurl gives back.
pub record Reply : Type 0 where
  pub headers : List (List ℕ × List ℕ)
  pub body : List ℕ
  pub error_code : ℕ
  pub status_code : ℕ

pub data Task {ℓ} (R : Type ℓ) : Type ℓ where
  done : R → Task R
  ask : Call → (Reply → Task R) → Task R
