-- ===== src/Retry/Tests.antt =====
-- Conditions on retries at concrete runs.
use dogpile.Base.{ℕ, String, true, false, none, some, arith, ◌≡◌, refl, ◌↔◌}
use dogpile.Base.Result.{ok, err}
use dogpile.Data.Error.{Thrown, own, other, provider_unavailable}
use dogpile.Samples.{whole_js, whole_js-IsOrdered, whole_js-HasScaling}
use dogpile.Retry.{
  RetryPolicy, Surroundings, settings_of, full, generate, default_retry_on, choose_delay,
}
use dogpile.Retry.Delay.{choose_delay-le}
use dogpile.Retry.Errors.{IsRetryable, default_retry_on_iff}
use dogpile.Retry.Attempts.{Outcome, generate-Outcome}

abbrev patient : RetryPolicy ℕ
patient = record {
  max_attempts = some 2;
  base_delay_ms = none;
  max_delay_ms = none;
  jitter = some full;
  retry_on = none;
  delay_for_error = none;
}

-- A provider that is never available.
abbrev offline : Surroundings ℕ String
offline = record {
  generate = λ n. err (
      own (record {
        code = provider_unavailable;
        message = "down";
        retryable = some true;
        provider_id = none;
        detail = none;
      }));
  aborted_before = λ n. false;
  aborted_after = λ n. false;
  signal_reason = none;
  random = λ n. 0;
  sleep = λ n ms. ok tt;
}

generate-Outcome_example :
    Outcome (settings_of patient) offline 1 (generate (settings_of patient) offline)
unfolding settings_of
generate-Outcome_example = generate-Outcome (settings_of patient) offline (omega arith)

abbrev broken_fetch : Thrown ℕ
broken_fetch = other (some "TypeError") true

default_retry_on_example : (default_retry_on broken_fetch ≡ true) ↔ IsRetryable broken_fetch
default_retry_on_example = default_retry_on_iff broken_fetch

choose_delay_example : whole_js.le (choose_delay (settings_of patient) 0 2 broken_fetch) 4000 ≡ true
unfolding settings_of
choose_delay_example =
    choose_delay-le whole_js-IsOrdered whole_js-HasScaling (settings_of patient) 0 2 broken_fetch
      refl refl refl refl refl
