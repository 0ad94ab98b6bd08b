-- ===== src/Retry/Errors.antt =====
-- Which errors are retried by default.
use dogpile.Base.{
  Bool, true, false, Bool-cases, inl, inr, Option, none, some, get_or, String, str_eq, str_eq_iff,
  ◌≡◌, ◌≢◌, refl, sym, ap, ◌∙◌, ◌↔◌, if◌then◌else◌,
}
use dogpile.Data.Error.{
  ErrorCode, DogpileError, Thrown, own, other, invalid_configuration, aborted, timeout,
  provider_authentication, provider_invalid_request, provider_invalid_response, provider_not_found,
  provider_rate_limited, provider_timeout, provider_unavailable, provider_unsupported,
  provider_error, unknown,
}
use dogpile.Retry.{
  default_retry_on, default_retryable, is_abort_error, retryable_by_kind, is_excluded_code,
  is_aborted_code, named_abort,
}

-- The transient failures of a provider.
pub data IsTransient : ErrorCode → Type 0 where
  rate_limited : IsTransient provider_rate_limited
  timed_out : IsTransient provider_timeout
  unavailable : IsTransient provider_unavailable

module _ {F : Type 0} where
  -- A transient failure, or a `TypeError` whose name is not "AbortError".
  abbrev pub IsRetryable : Thrown F → Type 0
  IsRetryable (own e) = IsTransient e.code
  IsRetryable (other name is_type_error) = (is_type_error ≡ true) × (name ≢ some "AbortError")

  by_code :
      (e : DogpileError F)
      → default_retry_on (own e) ≡ (
          if is_aborted_code e.code
          then false
          else if is_excluded_code e.code
          then false
          else default_retryable e.code)
  unfolding default_retry_on is_abort_error retryable_by_kind
  by_code e = refl

false_ne_true : false ≡ true → ⊥
false_ne_true h = cc

code_of_retry :
    (c : ErrorCode)
    → (if is_aborted_code c
        then false
        else if is_excluded_code c
        then false
        else default_retryable c)
      ≡ true
    → IsTransient c
unfolding is_aborted_code is_excluded_code default_retryable
code_of_retry invalid_configuration h = absurd (false_ne_true h)
code_of_retry aborted h = absurd (false_ne_true h)
code_of_retry timeout h = absurd (false_ne_true h)
code_of_retry provider_authentication h = absurd (false_ne_true h)
code_of_retry provider_invalid_request h = absurd (false_ne_true h)
code_of_retry provider_invalid_response h = absurd (false_ne_true h)
code_of_retry provider_not_found h = absurd (false_ne_true h)
code_of_retry provider_rate_limited h = rate_limited
code_of_retry provider_timeout h = timed_out
code_of_retry provider_unavailable h = unavailable
code_of_retry provider_unsupported h = absurd (false_ne_true h)
code_of_retry provider_error h = absurd (false_ne_true h)
code_of_retry unknown h = absurd (false_ne_true h)

retry_of_code :
    {c : ErrorCode}
    → IsTransient c
    → (if is_aborted_code c
        then false
        else if is_excluded_code c
        then false
        else default_retryable c)
      ≡ true
unfolding is_aborted_code is_excluded_code default_retryable
retry_of_code rate_limited = refl
retry_of_code timed_out = refl
retry_of_code unavailable = refl

named_iff : (name : Option String) → (named_abort name ≡ false) ↔ (name ≢ some "AbortError")
unfolding named_abort
named_iff none = (λ h e. cc, λ n. refl)
named_iff (some name) = (
  λ h e. false_ne_true (sym h ∙ (str_eq_iff name "AbortError").1 (ap (λ o. get_or o "") e)),
  λ n. elim (Bool-cases (str_eq name "AbortError")) [
    | inl e ↦ absurd (n (ap some ((str_eq_iff name "AbortError").0 e)))
    | inr e ↦ e
  ],
)

other_iff :
    (abort is_type_error : Bool)
    → ((if abort then false else is_type_error) ≡ true) ↔ ((is_type_error ≡ true) × (abort ≡ false))
other_iff true is_type_error =
    (λ h. absurd (false_ne_true h), λ (t, n). absurd (false_ne_true (sym n)))
other_iff false is_type_error = (λ h. (h, refl), λ (t, n). t)

-- Without a predicate of the caller's, an error is retried exactly if it is a `DogpileError` for a rate
-- limit, a provider timeout or an unavailable provider, or a `TypeError` whose name is not
-- "AbortError".
pub default_retry_on_iff : {F : Type 0} (e : Thrown F) → (default_retry_on e ≡ true) ↔ IsRetryable e
unfolding default_retry_on retryable_by_kind is_abort_error
default_retry_on_iff (own e) = rw (by_code e) (code_of_retry e.code, retry_of_code)
default_retry_on_iff (other name is_type_error) =
    let (retried, retry) = other_iff (named_abort name) is_type_error in
    let (unnamed, allowed) = named_iff name in
    (λ h. let (t, n) = retried h in (t, unnamed n), λ (t, n). retry (t, allowed n))
