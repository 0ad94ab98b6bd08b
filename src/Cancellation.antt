-- ===== src/Cancellation.antt =====
-- src/runtime/cancellation.ts: the errors of an abort and of a timeout.
pub mod Signals
mod Tests
use Prim.Native.String.{◌++◌ as str_append}
use dogpile.Base.{ℕ, Bool, true, false, Option, none, some, String, Js, if◌then◌else◌}
use dogpile.Base.Result.{Result, ok, err}
use dogpile.Data.Json.{Json, num, str, obj, end, field}
use dogpile.Data.Error.{
  ErrorCode, DogpileError, aborted, timeout, provider_timeout, Thrown, own, other,
}

-- `reason` is what the caller aborted with.
pub record AbortSignal (F : Type 0) : Type 0 where
  pub aborted : Bool
  pub reason : Thrown F

pub data AbortReason : Type 0 where
  parent_aborted timed_out : AbortReason

pub data ChildTimeoutSource : Type 0 where
  provider engine : ChildTimeoutSource

unfoldable pub reason_text : AbortReason → String
reason_text parent_aborted = "parent-aborted"
reason_text timed_out = "timeout"

unfoldable pub classify_code : ErrorCode → AbortReason
classify_code timeout = timed_out
classify_code code = parent_aborted

unfoldable pub classify_abort_reason : {F : Type 0} → Thrown F → AbortReason
classify_abort_reason (own e) = classify_code e.code
classify_abort_reason (other name is_type_error) = parent_aborted

unfoldable pub classify_child_timeout_source : Option ℕ → Option ℕ → Bool → ChildTimeoutSource
classify_child_timeout_source decision_timeout_ms engine_default_timeout_ms true = provider
classify_child_timeout_source (some t) engine_default_timeout_ms false = engine
classify_child_timeout_source none (some t) false = engine
classify_child_timeout_source none none false = provider

module _ {F : Type 0} where
  unfoldable pub create_abort_error : String → Option (Json F) → DogpileError F
  create_abort_error provider_id detail = record {
    code = ErrorCode.aborted;
    message = "The operation was aborted.";
    retryable = some false;
    provider_id = some provider_id;
    detail = detail;
  }

  -- Of a thrown value: an error of the library as it is, or an abort error around another.
  unfoldable pub error_from_reason : Thrown F → String → DogpileError F
  error_from_reason (own e) provider_id = e
  error_from_reason (other name is_type_error) provider_id = create_abort_error provider_id (
      some (
        obj (
          field "reason"
            (str (reason_text (classify_abort_reason {F = F} (other name is_type_error)))) end)))

  unfoldable pub create_abort_error_from_signal : AbortSignal F → String → DogpileError F
  create_abort_error_from_signal signal provider_id = error_from_reason signal.reason provider_id

  unfoldable pub throw_if_aborted :
      Option (AbortSignal F) → String → Result (DogpileError F) (Unit {0})
  throw_if_aborted none provider_id = ok tt
  throw_if_aborted (some signal) provider_id =
      if signal.aborted then err (create_abort_error_from_signal signal provider_id) else ok tt

module _ {F : Type 0} ⦃js : Js F⦄ where
  unfoldable pub create_timeout_error : String → ℕ → DogpileError F
  create_timeout_error provider_id timeout_ms = record {
    code = timeout;
    message =
        str_append "The operation timed out after " (str_append (js.show_nat timeout_ms) "ms.");
    retryable = some true;
    provider_id = some provider_id;
    detail = some (obj (field "timeoutMs" (num (js.of_nat timeout_ms)) end));
  }

  unfoldable pub create_engine_deadline_timeout_error : String → ℕ → DogpileError F
  create_engine_deadline_timeout_error provider_id timeout_ms = record {
    code = provider_timeout;
    message =
        str_append "The child engine deadline expired after "
          (str_append (js.show_nat timeout_ms) "ms.");
    retryable = some true;
    provider_id = some provider_id;
    detail =
        some (
          obj (field "timeoutMs" (num (js.of_nat timeout_ms)) (field "source" (str "engine") end)));
  }
