-- ===== src/Cancellation/Signals.antt =====
-- What the check of a signal throws, and how the errors it throws are classified by whoever catches
-- them.
use dogpile.Base.{true, false, Option, none, some, String, ◌≡◌, refl, ◌⊎◌, inl, inr, Bool-cases}
use dogpile.Base.Result.{Result, ok, err}
use dogpile.Data.Json.{str, obj, end, field}
use dogpile.Data.Error.{ErrorCode, DogpileError, Thrown, own, other}
use dogpile.Cancellation.{
  AbortSignal, classify_abort_reason, error_from_reason, create_abort_error,
  create_abort_error_from_signal, throw_if_aborted, reason_text,
}

module _ {F : Type 0} where
  -- An error that says that the caller aborted.
  pub IsParentAbort : String → DogpileError F → Type 0
  IsParentAbort provider_id e =
      (e.code ≡ ErrorCode.aborted)
      × (e.retryable ≡ some false)
      × (e.provider_id ≡ some provider_id)
      × (e.detail ≡ some (obj (field "reason" (str "parent-aborted") end)))

  -- What is thrown for a signal that is aborted with a value.
  pub Carries : String → Thrown F → DogpileError F → Type 0
  Carries provider_id (own e) x = x ≡ e
  Carries provider_id (other name is_type_error) x = IsParentAbort provider_id x

  pub Checked : String → Option (AbortSignal F) → Result (DogpileError F) (Unit {0}) → Type 0
  Checked provider_id none r = r ≡ ok tt
  Checked provider_id (some signal) r =
      ((signal.aborted ≡ false) × (r ≡ ok tt))
      ⊎ ((signal.aborted ≡ true)
          × ((e : DogpileError F) × (r ≡ err e) × Carries provider_id signal.reason e))

  error_from_reason-Carries :
      (provider_id : String) (reason : Thrown F)
      → Carries provider_id reason (error_from_reason reason provider_id)
  unfolding error_from_reason create_abort_error classify_abort_reason reason_text Carries
      IsParentAbort
  error_from_reason-Carries provider_id (own e) = refl
  error_from_reason-Carries provider_id (other name is_type_error) = (refl, refl, refl, refl)

  -- The check throws exactly when there is a signal and it is aborted, and then the library's own error
  -- that the signal was aborted with, a timeout say, or else an abort error whose reason is the
  -- parent, and never the timeout.
  pub throw_if_aborted-Checked :
      (provider_id : String) (signal : Option (AbortSignal F))
      → Checked provider_id signal (throw_if_aborted signal provider_id)
  unfolding throw_if_aborted Checked create_abort_error_from_signal
  throw_if_aborted-Checked provider_id none = refl
  throw_if_aborted-Checked provider_id (some signal) = elim (Bool-cases signal.aborted) [
    | inl e ↦ inr (e, (_, rw e refl, error_from_reason-Carries provider_id signal.reason))
    | inr e ↦ inl (e, rw e refl)
  ]
