-- ===== src/Data/Error.antt =====
-- Errors of src/types.ts, and what a `catch` may receive.
use dogpile.Base.{Bool, String, Option}
use dogpile.Data.Json.{Json}

pub data ErrorCode : Type 0 where
  invalid_configuration aborted timeout provider_authentication : ErrorCode
  provider_invalid_request provider_invalid_response provider_not_found : ErrorCode
  provider_rate_limited provider_timeout provider_unavailable provider_unsupported : ErrorCode
  provider_error unknown : ErrorCode

-- Without `cause`, the thrown value that was wrapped.
pub record DogpileError (F : Type 0) : Type 0 where
  pub code : ErrorCode
  pub message : String
  pub retryable : Option Bool
  pub provider_id : Option String
  pub detail : Option (Json F)

-- Any other thrown value is its `name`, if it is an object with one, and whether it is a
-- `TypeError`.
pub data Thrown (F : Type 0) : Type 0 where
  own : DogpileError F → Thrown F
  other : Option String → Bool → Thrown F
