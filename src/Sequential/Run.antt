-- ===== src/Sequential/Run.antt =====
-- `runSequential` of src/runtime/sequential.ts: the loop over the agents, the final event and the result.
use dogpile.Base.{ℕ, suc, Bool, true, false, none, some, get_or, String, List, [], ◌∷◌, length, Js}
use dogpile.Base.Result.{Result, ok, err, ◌>>=◌, ◌>>◌}
use dogpile.Data.Agent.{Protocol, sequential_config, AgentSpec}
use dogpile.Data.Error.{Thrown, other}
use dogpile.Data.Model.{RunHealthSummary}
use dogpile.Data.Trace.{RunEvent, Trace, trace, RunResult, run_result, of_list, final}
use dogpile.Accounting.{
  last_of, create_transcript_link, create_run_usage, create_run_accounting, create_run_metadata,
  create_replay_trace_budget_state_changes,
}
use dogpile.Health.{compute_health, default_health_thresholds}
use dogpile.Replay.{
  create_replay_trace_run_inputs, create_replay_trace_budget, create_replay_trace_seed,
  create_replay_trace_final_output,
}
use dogpile.Sequential.{
  active_agents, final_output, initial_state, emit_decided, assign_roles, before_roles,
  before_final, before_turn, after_turn, SequentialRunOptions, SequentialState,
}
use dogpile.Sequential.Stop.{entry_count, stop_if_needed}
use dogpile.Sequential.Turn.{run_turn}

module _ {F : Type 0} ⦃js : Js F⦄ where
  -- Goes on unless the run stops.
  unfoldable pub unless_stopped :
      (SequentialState F → Result (Thrown F) (SequentialState F))
      → SequentialState F × Bool
      → Result (Thrown F) (SequentialState F)
  unless_stopped next (st, true) = ok st
  unless_stopped next (st, false) = next st

  -- The loop over the agents; `turn` counts from 1.
  unfoldable pub run_turns :
      SequentialRunOptions F
      → ℕ
      → List AgentSpec
      → SequentialState F
      → Result (Thrown F) (SequentialState F)
  run_turns o turn [] st = ok st
  run_turns o turn (agent ∷ agents) st =
      stop_if_needed o (before_turn turn) st
      >>= unless_stopped λ before. run_turn o turn agent before >>= λ done.
          stop_if_needed o (after_turn turn) done >>= unless_stopped (run_turns o (suc turn) agents)

  unfoldable pub final_event : SequentialRunOptions F → String → SequentialState F → RunEvent F
  final_event o output st = final (record {
    run_id = o.run_id;
    at = o.event_at (length st.events);
    output = output;
    cost = st.total_cost;
    transcript = create_transcript_link st.transcript;
    quality = none;
    evaluation = none;
    termination = st.termination;
  })

  unfoldable pub with_final : SequentialRunOptions F → SequentialState F → SequentialState F
  with_final o st =
      emit_decided o (entry_count st) (final_event o (final_output st.transcript) st) st

  -- The trace of a state whose last event is the final one.
  unfoldable pub trace_of_state : SequentialRunOptions F → String → SequentialState F → Trace F
  trace_of_state o output st =
      trace
        (record {
          run_id = o.run_id;
          protocol = Protocol.sequential;
          tier = o.tier;
          model_provider_id = o.model.id;
          agents_used = active_agents o;
          inputs =
              create_replay_trace_run_inputs o.intent (sequential_config o.limits) o.tier o.model.id
                (active_agents o) o.temperature;
          budget = create_replay_trace_budget o.tier o.budget o.terminate;
          budget_state_changes = create_replay_trace_budget_state_changes st.events;
          seed = create_replay_trace_seed o.seed;
          protocol_decisions = st.protocol_decisions;
          provider_calls = st.provider_calls;
          final_output =
              create_replay_trace_final_output output
                (get_or (last_of st.events) (final_event o output st));
          triggering_failure_for_abort_mode = none;
          transcript = st.transcript;
        })
        (of_list st.events)

  unfoldable pub result_of_state :
      {E : Type 0}
      → SequentialRunOptions F
      → String
      → SequentialState F
      → Result E (RunHealthSummary F)
      → Result (Thrown F) (RunResult F)
  result_of_state o output st (err e) = err (other (some "RangeError") false)
  result_of_state o output st (ok health) = ok (
      run_result
        (record {
          output = output;
          transcript = st.transcript;
          usage = create_run_usage st.total_cost;
          metadata =
              create_run_metadata o.run_id Protocol.sequential o.tier o.model.id (active_agents o)
                st.events;
          accounting = create_run_accounting o.tier o.budget o.terminate st.total_cost st.events;
          cost = st.total_cost;
          quality = none;
          evaluation = none;
          health = health;
        })
        (trace_of_state o output st) (of_list st.events))

  unfoldable pub finish :
      SequentialRunOptions F → SequentialState F → Result (Thrown F) (RunResult F)
  finish o st =
      let output = final_output st.transcript in
      o.check before_final
      >> result_of_state o output (with_final o st)
          (compute_health (trace_of_state o output (with_final o st)) default_health_thresholds)

  unfoldable pub run_sequential : SequentialRunOptions F → Result (Thrown F) (RunResult F)
  run_sequential o =
      o.check before_roles
      >> (run_turns o 1 (active_agents o) (assign_roles o (active_agents o) initial_state)
          >>= finish o)
