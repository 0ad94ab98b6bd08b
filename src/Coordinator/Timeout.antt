-- ===== src/Coordinator/Timeout.antt =====
-- The checks and the timeout of `dispatchDelegate` of src/runtime/coordinator.ts, up to the event that
-- says that the timeout was clamped, with `assertDepthWithinLimit` of src/runtime/decisions.ts. The
-- clock is read twice in the source: for the remaining time, which is `now` here, and after it.
pub mod Deadline
use Prim.Native.String.{◌++◌ as str_append}
use dogpile.Base.{
  ℕ, suc, ◌-◌, Bool, true, false, Option, none, some, String, Js, ltb, ◌==◌, if◌then◌else◌,
}
use dogpile.Base.Result.{Result, ok, err, ◌>>◌}
use dogpile.Data.Json.{num, str, obj, end, field}
use dogpile.Data.Error.{DogpileError, aborted, invalid_configuration}
use dogpile.Decisions.Depth.{assert_depth_within_limit}
use dogpile.Data.Event.{SubRunBudgetClampedEvent}

pub record DispatchOptions : Type 0 where
  pub parent_depth : ℕ
  pub effective_max_depth : Option ℕ
  pub decision_timeout_ms : Option ℕ
  pub parent_deadline_ms : Option ℕ
  pub default_sub_run_timeout_ms : Option ℕ
  pub has_run_protocol : Bool
  pub model_id : String
  pub child_run_id : String
  pub parent_run_id : String
  pub parent_decision_id : String

pub record ChildTimeout : Type 0 where
  pub child_timeout_ms : Option ℕ
  pub clamped_from : Option ℕ

module _ {F : Type 0} ⦃js : Js F⦄ where
  check_depth : ℕ → Option ℕ → Result (DogpileError F) (Unit {0})
  unfolding assert_depth_within_limit
  check_depth parent_depth none = ok tt
  check_depth parent_depth (some max_depth) = assert_depth_within_limit parent_depth max_depth

module _ {F : Type 0} where
  deadline_error : String → DogpileError F
  deadline_error model_id = record {
    code = aborted;
    message = "Parent deadline elapsed before sub-run dispatch.";
    retryable = some false;
    provider_id = some model_id;
    detail = some (obj (field "reason" (str "timeout") end));
  }

  missing_protocol_error : DogpileError F
  missing_protocol_error = record {
    code = invalid_configuration;
    message =
        str_append "Coordinator delegate dispatch requires the engine `runProtocol` callback. "
          "Use `Dogpile.run` / `createEngine` rather than calling `runCoordinator` directly when delegate is in play.";
    retryable = some false;
    provider_id = none;
    detail =
        some
          (obj (field "kind" (str "delegate-validation") (field "path" (str "runProtocol") end)));
  }

  check_deadline : String → Option ℕ → Result (DogpileError F) (Unit {0})
  unfolding deadline_error
  check_deadline model_id none = ok tt
  check_deadline model_id (some remaining) =
      if remaining == 0 then err (deadline_error model_id) else ok tt

  check_protocol : Bool → Result (DogpileError F) (Unit {0})
  unfolding missing_protocol_error
  check_protocol true = ok tt
  check_protocol false = err missing_protocol_error

-- `Math.max(0, parentDeadlineMs - Date.now())`.
remaining_ms : Option ℕ → ℕ → Option ℕ
remaining_ms none now = none
remaining_ms (some deadline) now = some (deadline - now)

-- By the remaining time, the decision's timeout and the engine's default.
unfoldable pub resolve_timeout : Option ℕ → Option ℕ → Option ℕ → ChildTimeout
resolve_timeout (some remaining) (some decision) fallback =
    if ltb remaining decision
    then record { child_timeout_ms = some remaining; clamped_from = some decision }
    else record { child_timeout_ms = some decision; clamped_from = none }
resolve_timeout (some remaining) none fallback = record {
  child_timeout_ms = some remaining;
  clamped_from = none;
}
resolve_timeout none (some decision) fallback = record {
  child_timeout_ms = some decision;
  clamped_from = none;
}
resolve_timeout none none fallback = record { child_timeout_ms = fallback; clamped_from = none }

module _ {F : Type 0} ⦃js : Js F⦄ where
  -- The timeout with which a delegate is started, or what is thrown before.
  unfoldable pub dispatch_timeout : DispatchOptions → ℕ → Result (DogpileError F) ChildTimeout
  unfolding check_depth check_deadline check_protocol remaining_ms
  dispatch_timeout o now =
      let remaining = remaining_ms o.parent_deadline_ms now in
      check_depth o.parent_depth o.effective_max_depth
      >> (check_deadline o.model_id remaining
          >> (check_protocol o.has_run_protocol
              >> ok (resolve_timeout remaining o.decision_timeout_ms o.default_sub_run_timeout_ms)))

clamp_of : DispatchOptions → String → Option ℕ → Option ℕ → Option SubRunBudgetClampedEvent
clamp_of o at (some requested) (some clamped) = some (record {
  run_id = o.parent_run_id;
  parent_run_ids = none;
  at = at;
  child_run_id = o.child_run_id;
  parent_run_id = o.parent_run_id;
  parent_decision_id = o.parent_decision_id;
  requested_timeout_ms = requested;
  clamped_timeout_ms = clamped;
})
clamp_of o at (some requested) none = none
clamp_of o at none clamped = none

-- The event that is emitted before the child starts, if its timeout was clamped.
unfoldable pub clamp_event :
    DispatchOptions → String → ChildTimeout → Option SubRunBudgetClampedEvent
unfolding clamp_of
clamp_event o at t = clamp_of o at t.clamped_from t.child_timeout_ms
