-- ===== src/Sequential/Stop.antt =====
-- `stopIfNeeded` of src/runtime/sequential.ts.
use dogpile.Base.{ℕ, Bool, true, false, Option, none, some, get_or, length, Js, if◌then◌else◌}
use dogpile.Base.Result.{Result, ok, err, ◌>>◌}
use dogpile.Data.Json.{obj, end}
use dogpile.Data.Agent.{Protocol, ProtocolConfig, sequential_config}
use dogpile.Data.Condition.{TerminationCondition, TerminationStopRecord, BudgetStopReason}
use dogpile.Data.Error.{Thrown, other}
use dogpile.Data.Trace.{RunEvent, budget_stop}
use dogpile.Replay.{DecisionOptions, no_options}
use dogpile.Termination.Evaluate.{evaluate_termination_stop}
use dogpile.WrapUp.Hint.{ContextOptions, controller_context}
use dogpile.Sequential.{
  is_budget, controller_options, emit_decided, Point, SequentialRunOptions, SequentialState,
}

module _ {F : Type 0} ⦃js : Js F⦄ where
  -- The context of a stop test and of the hint: the same values, and the protocol only for the test.
  unfoldable pub context_options :
      SequentialRunOptions F
      → Point
      → Option ProtocolConfig
      → Option ℕ
      → SequentialState F
      → ContextOptions F
  context_options o p config progress st = record {
    run_id = o.run_id;
    protocol = Protocol.sequential;
    protocol_config = config;
    cost = st.total_cost;
    events = st.events;
    transcript = st.transcript;
    iteration = some (length st.transcript);
    protocol_iteration = progress;
    elapsed_ms = some (o.elapsed_ms p);
    metadata = none;
  }

  unfoldable pub budget_stop_event :
      SequentialRunOptions F → Point → TerminationStopRecord F → SequentialState F → RunEvent F
  budget_stop_event o p r st = budget_stop (record {
    run_id = o.run_id;
    parent_run_ids = none;
    at = o.event_at (length st.events);
    reason = get_or r.budget_reason BudgetStopReason.cost;
    cost = st.total_cost;
    iteration = length st.transcript;
    elapsed_ms = o.elapsed_at_stop p;
    detail = get_or r.detail (obj end);
  })

  -- `{ transcriptEntryCount: transcript.length }`.
  unfoldable pub entry_count : SequentialState F → DecisionOptions
  entry_count st = record no_options { transcript_entry_count = some (length st.transcript) }

  unfoldable pub record_stop :
      SequentialRunOptions F
      → Point
      → TerminationStopRecord F
      → SequentialState F
      → SequentialState F
  record_stop o p r st =
      let marked = record st { stopped = true; termination = some r } in
      if is_budget r.reason
      then emit_decided o (entry_count marked) (budget_stop_event o p r marked) marked
      else marked

  -- The state after the test, and whether the run stops.
  unfoldable pub after_test :
      {E : Type 0}
      → SequentialRunOptions F
      → Point
      → SequentialState F
      → Result E (Option (TerminationStopRecord F))
      → Result (Thrown F) (SequentialState F × Bool)
  after_test o p st (ok none) = ok (st, false)
  after_test o p st (ok (some r)) = ok (record_stop o p r st, true)
  after_test o p st (err e) = err (other (some "RangeError") false)

  unfoldable pub test_stop :
      SequentialRunOptions F
      → Point
      → SequentialState F
      → Bool
      → Option (TerminationCondition F)
      → Result (Thrown F) (SequentialState F × Bool)
  test_stop o p st false (some terminate) = after_test o p st (
      evaluate_termination_stop terminate (
        controller_context (controller_options o) (
          context_options o p (some (sequential_config o.limits)) (some (length st.transcript))
            st)))
  test_stop o p st stopped terminate = ok (st, stopped)

  unfoldable pub stop_if_needed :
      SequentialRunOptions F
      → Point
      → SequentialState F
      → Result (Thrown F) (SequentialState F × Bool)
  stop_if_needed o p st = o.check p >> test_stop o p st st.stopped o.terminate
