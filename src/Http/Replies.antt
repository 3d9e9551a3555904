-- ===== src/Http/Replies.antt =====
-- include/mtxclient/http/client_impl.hpp: what a callback is given for a reply.
pub mod Results
use mtxclient.Shared.{
  ℕ, Bool, ◌||◌, List, [], ◌++◌, Option, none, some, ◌⊎◌, inl, inr, ltb, leb, ◌==◌, if◌then◌else◌,
  codes,
}
use mtxclient.Http.Tasks.{Reply}

-- `deserialize` of a type, with the text of the exception where it throws, and the type's default value.
pub record Reader {ℓ} (T : Type ℓ) : Type ℓ where
  pub empty : T
  pub read : List ℕ → List ℕ ⊎ T

-- `deserialize<std::string>`
abbrev pub text_reader : Reader (List ℕ)
text_reader = record { empty = []; read = λ body. inr body }

pub record ClientError {ℓ} (E : Type ℓ) : Type ℓ where
  pub matrix_error : E
  pub error_code : ℕ
  pub status_code : ℕ
  pub parse_error : List ℕ

-- The arguments of a callback.
pub record Answer {ℓ κ} (T : Type ℓ) (E : Type κ) : Type (ℓ ⊔ κ) where
  pub response : T
  pub headers : List (List ℕ × List ℕ)
  pub error : Option (ClientError E)

module _ {ℓ κ} {T : Type ℓ} {E : Type κ} (responses : Reader T) (errors : Reader E) where
  abbrev pub no_error : ClientError E
  no_error = record {
    matrix_error = errors.empty;
    error_code = 0;
    status_code = 0;
    parse_error = [];
  }

  -- The response of a failed request, where there is one after all.
  abbrev pub read_or_empty : List ℕ ⊎ T → T
  read_or_empty (inl what) = responses.empty
  read_or_empty (inr response) = response

  -- The error struct of a failed request.
  unfoldable pub read_error : Reply → List ℕ ⊎ E → ClientError E
  read_error r (inr e) = record no_error { matrix_error = e; status_code = r.status_code }
  read_error r (inl what) = record no_error {
    error_code = 42;
    status_code = r.status_code;
    parse_error = what ++ codes " [while parsing error]: " ++ r.body;
  }

  -- The response of a request that succeeded.
  unfoldable pub read_response : Reply → List ℕ ⊎ T → Answer T E
  read_response r (inr response) = record { response = response; headers = r.headers; error = none }
  read_response r (inl what) = record {
    response = responses.empty;
    headers = r.headers;
    error = some (record no_error { parse_error = what ++ codes ": " ++ r.body });
  }

  -- The callback that `prepare_callback` makes.
  unfoldable pub prepare_callback : Reply → Answer T E
  prepare_callback r =
      if ltb 0 r.error_code
      then record {
        response = responses.empty;
        headers = r.headers;
        error = some (record no_error { error_code = r.error_code });
      }
      else if ltb r.status_code 200 || leb 300 r.status_code
      then record {
        response = read_or_empty (responses.read r.body);
        headers = r.headers;
        error = some (read_error r (errors.read r.body));
      }
      else read_response r (responses.read r.body)

-- `delete_` leaves the two numbers of its error uninitialised; the arguments are what the memory holds.
module _ {κ} {E : Type κ} (errors : Reader E) (error_code status_code : ℕ) where
  -- A failure of the reader is a `nlohmann::json::exception`, the one that is caught.
  unfoldable pub read_delete_error : Reply → List ℕ ⊎ E → ClientError E
  read_delete_error r (inr e) = record {
    matrix_error = e;
    error_code = error_code;
    status_code = r.status_code;
    parse_error = [];
  }
  read_delete_error r (inl what) = record {
    matrix_error = errors.empty;
    error_code = error_code;
    status_code = r.status_code;
    parse_error = what ++ codes ": " ++ r.body;
  }

  -- The callback of `delete_`, which reads no response.
  unfoldable pub delete_callback : Reply → Option (ClientError E)
  delete_callback r =
      if ltb 0 r.error_code
      then some (record {
        matrix_error = errors.empty;
        error_code = r.error_code;
        status_code = status_code;
        parse_error = [];
      })
      else if ltb r.status_code 200 || leb 300 r.status_code
      then some (read_delete_error r (errors.read r.body))
      else none
