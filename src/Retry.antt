-- ===== src/Retry.antt =====
-- `withRetry` of src/runtime/retry.ts. Outside it are the wrapped provider, the abort signal, the
-- random numbers and the sleep: a `Surroundings`, by the attempt at which they are asked. `stream`
-- is passed through and not modelled.
pub mod Attempts
pub mod Errors
pub mod Delay
mod Tests
use dogpile.Base.{
  ℕ, zero, suc, ◌-◌, ◌^◌, Bool, true, false, not, ◌&&◌, ◌||◌, Option, none, some, get_or, String,
  List, [], ◌∷◌, Js, ltb, leb, if◌then◌else◌, str_eq,
}
use dogpile.Base.Result.{Result, ok, err}
use dogpile.Data.Json.{Json, Fields, num, str, obj, end, field, null, bool, arr}
use dogpile.Data.Error.{
  ErrorCode, DogpileError, Thrown, own, other, aborted, invalid_configuration, unknown,
  provider_rate_limited, provider_timeout, provider_unavailable,
}

pub data Jitter : Type 0 where
  full none_jitter : Jitter

-- `onRetry` is an action of the log below; `random` and `sleep` are in the surroundings.
pub record RetryPolicy (F : Type 0) : Type 0 where
  pub max_attempts : Option ℕ
  pub base_delay_ms : Option F
  pub max_delay_ms : Option F
  pub jitter : Option Jitter
  pub retry_on : Option (Thrown F → Bool)
  pub delay_for_error : Option (Thrown F → Option F)

pub record Settings (F : Type 0) : Type 0 where
  pub max_attempts : ℕ
  pub base_delay_ms : F
  pub max_delay_ms : F
  pub jitter : Jitter
  pub retry_on : Thrown F → Bool
  pub delay_for_error : Thrown F → Option F

pub record Surroundings (F R : Type 0) : Type 0 where
  pub generate : ℕ → Result (Thrown F) R
  -- The signal before an attempt, and after one that failed.
  pub aborted_before : ℕ → Bool
  pub aborted_after : ℕ → Bool
  pub signal_reason : Option (Thrown F)
  pub random : ℕ → F
  pub sleep : ℕ → F → Result (Thrown F) (Unit {0})

pub data Action (F : Type 0) : Type 0 where
  called : ℕ → Action F
  on_retry : ℕ → ℕ → F → Thrown F → Action F

unfoldable pub default_retryable : ErrorCode → Bool
default_retryable provider_rate_limited = true
default_retryable provider_timeout = true
default_retryable provider_unavailable = true
default_retryable code = false

is_aborted_code : ErrorCode → Bool
is_aborted_code aborted = true
is_aborted_code code = false

-- The codes that `defaultRetryOn` rules out before it looks at the list.
is_excluded_code : ErrorCode → Bool
is_excluded_code aborted = true
is_excluded_code invalid_configuration = true
is_excluded_code code = false

named_abort : Option String → Bool
named_abort none = false
named_abort (some name) = str_eq name "AbortError"

-- A `DogpileError` has the name "DogpileError".
unfoldable pub is_abort_error : {F : Type 0} → Thrown F → Bool
unfolding is_aborted_code named_abort
is_abort_error (own e) = is_aborted_code e.code
is_abort_error (other name is_type_error) = named_abort name

retryable_by_kind : {F : Type 0} → Thrown F → Bool
unfolding is_excluded_code default_retryable
retryable_by_kind (own e) = if is_excluded_code e.code then false else default_retryable e.code
retryable_by_kind (other name is_type_error) = is_type_error

unfoldable pub default_retry_on : {F : Type 0} → Thrown F → Bool
unfolding is_abort_error retryable_by_kind
default_retry_on e = if is_abort_error e then false else retryable_by_kind e

lookup : {F : Type 0} → String → Fields F → Option (Json F)
lookup key end = none
lookup key (field k v rest) = if str_eq k key then some v else lookup key rest

number_of : {F : Type 0} → Option (Json F) → Option F
number_of (some (num x)) = some x
number_of v = none

property : {F : Type 0} → String → Option (Json F) → Option (Json F)
unfolding lookup
property key (some (obj fields)) = lookup key fields
property key v = none

module _ {F : Type 0} ⦃js : Js F⦄ where
  -- `Number.isFinite(x) && x >= 0`, of a number that may be missing.
  usable : Option F → Option F
  usable none = none
  usable (some x) = if js.is_finite x && js.le (js.of_nat 0) x then some x else none

  unfoldable pub retry_after_from_error : Thrown F → Option F
  unfolding usable number_of property
  retry_after_from_error (own e) = usable (number_of (property "retryAfterMs" e.detail))
  retry_after_from_error (other name is_type_error) = none

  -- `override ?? retryAfterFromError(error)`.
  override_delay : Settings F → Thrown F → Option F
  unfolding retry_after_from_error
  override_delay settings e = elim (settings.delay_for_error e) [
    | none ↦ retry_after_from_error e
    | some d ↦ some d
  ]

  with_jitter : Jitter → F → F → F
  with_jitter none_jitter random capped = capped
  with_jitter full random capped = js.floor (js.mul capped random)

  unfoldable pub choose_delay : Settings F → F → ℕ → Thrown F → F
  unfolding usable override_delay with_jitter
  choose_delay settings random attempt e = elim (usable (override_delay settings e)) [
    | some d ↦ js.min_of settings.max_delay_ms d
    | none ↦ with_jitter settings.jitter random (
        js.min_of settings.max_delay_ms
          (js.mul settings.base_delay_ms (js.of_nat (2 ^ (attempt - 1)))))
  ]

  unfoldable pub settings_of : RetryPolicy F → Settings F
  settings_of policy = record {
    max_attempts = get_or policy.max_attempts 3;
    base_delay_ms = get_or policy.base_delay_ms (js.of_nat 250);
    max_delay_ms = get_or policy.max_delay_ms (js.of_nat 4000);
    jitter = get_or policy.jitter full;
    retry_on = get_or policy.retry_on default_retry_on;
    delay_for_error = get_or policy.delay_for_error (λ e. none);
  }

  configuration_error : String → Json F → Thrown F
  configuration_error message detail = own (record {
    code = invalid_configuration;
    message = message;
    retryable = none;
    provider_id = none;
    detail = some detail;
  })

  -- What `withRetry` throws before it returns the wrapper.
  unfoldable pub validated : Settings F → Result (Thrown F) (Settings F)
  unfolding configuration_error
  validated settings =
      if ltb settings.max_attempts 1
      then err (
          configuration_error "withRetry: maxAttempts must be >= 1."
            (obj (field "maxAttempts" (num (js.of_nat settings.max_attempts)) end)))
      else if js.lt settings.base_delay_ms (js.of_nat 0)
          || js.lt settings.max_delay_ms (js.of_nat 0)
      then err (
          configuration_error "withRetry: delay fields must be non-negative." (
            obj (
              field "baseDelayMs" (num settings.base_delay_ms)
                (field "maxDelayMs" (num settings.max_delay_ms) end))))
      else ok settings

module _ {F : Type 0} where
  own_error : ErrorCode → String → Thrown F
  own_error code message = own (record {
    code = code;
    message = message;
    retryable = none;
    provider_id = none;
    detail = none;
  })

  unfoldable pub abort_reason : Option (Thrown F) → Thrown F
  unfolding own_error
  abort_reason reason = get_or reason (own_error aborted "Request aborted.")

-- What the provider and `onRetry` are called with, and how the call ends.
pub record Run (F R : Type 0) : Type 0 where
  pub actions : List (Action F)
  pub outcome : Result (Thrown F) R

module _ {F R : Type 0} where
  ends : Result (Thrown F) R → Run F R
  ends outcome = record { actions = []; outcome = outcome }

  -- An action, and then the rest.
  first : Action F → Run F R → Run F R
  first action rest = record { actions = action ∷ rest.actions; outcome = rest.outcome }

  -- After the sleep before the next attempt.
  after_sleep : Result (Thrown F) (Unit {0}) → Run F R → Run F R
  unfolding ends
  after_sleep (err x) rest = ends (err x)
  after_sleep (ok u) rest = rest

module _ {F R : Type 0} ⦃js : Js F⦄ where
  -- The `catch` of one attempt; `rest` is what the remaining attempts do.
  unfoldable pub after_failure : Settings F → Surroundings F R → ℕ → Thrown F → Run F R → Run F R
  unfolding ends first after_sleep
  after_failure settings s attempt e rest =
      if is_abort_error e || s.aborted_after attempt
      then ends (err e)
      else if leb settings.max_attempts attempt || not (settings.retry_on e)
      then ends (err e)
      else let delay = choose_delay settings (s.random attempt) attempt e in
        first (on_retry attempt settings.max_attempts delay e)
          (after_sleep (s.sleep attempt delay) rest)

  after_call :
      Settings F → Surroundings F R → ℕ → Result (Thrown F) R → (Thrown F → Run F R) → Run F R
  unfolding ends after_failure
  after_call settings s attempt (ok response) rest = ends (ok response)
  after_call settings s attempt (err e) rest = after_failure settings s attempt e (rest e)

  -- The loop from `attempt` on, with as many rounds left as the first argument says.
  attempts : ℕ → Settings F → Surroundings F R → ℕ → Option (Thrown F) → Run F R
  unfolding ends first after_call abort_reason own_error
  attempts zero settings s attempt last_error = ends (
      err (
        get_or last_error
          (own_error unknown "withRetry: exhausted attempts without throwing or returning.")))
  attempts (suc left) settings s attempt last_error =
      if s.aborted_before attempt
      then ends (err (abort_reason s.signal_reason))
      else first (called attempt) (
          after_call settings s attempt (s.generate attempt)
            (λ e. attempts left settings s (suc attempt) (some e)))

  unfoldable pub generate : Settings F → Surroundings F R → Run F R
  unfolding attempts
  generate settings s = attempts settings.max_attempts settings s 1 none
