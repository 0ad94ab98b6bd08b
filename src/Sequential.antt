-- ===== src/Sequential.antt =====
-- `runSequential` of src/runtime/sequential.ts. What the run asks of its surroundings is in the
-- options: the times of the events and of the readings in a model turn, and at each point of the run
-- whether it is aborted there and how much time has passed.
pub mod Stop
pub mod Turn
pub mod Run
pub mod Steps
pub mod Local
pub mod Said
pub mod Turns
pub mod Integrity
pub mod Returns
mod Tests
use Prim.Native.String.{◌++◌ as str_append}
use dogpile.Base.{
  ℕ, suc, Bool, true, false, Option, none, some, get_or, or_else, String, List, [], ◌∷◌, ◌++◌, map,
  reverse, take, drop, find, length, Js, if◌then◌else◌, Option-cases,
}
use dogpile.Base.Result.{Result, ok, err, ◌>>=◌, ◌>>◌}
use dogpile.Data.Json.{Json, Fields, str, num, obj, end, field}
use dogpile.Data.Cost.{CostSummary, empty_cost, add_cost}
use dogpile.Data.Agent.{
  Protocol, ProtocolConfig, sequential_config, TurnLimits, BudgetTier, fast, balanced, quality,
  BudgetCaps, AgentSpec, AgentDecision, TranscriptEntry, TranscriptToolCall,
}
use dogpile.Data.Condition.{
  TerminationCondition, TerminationStopRecord, StopReason, budget_reason, convergence_reason,
  judge_reason, BudgetStopReason,
}
use dogpile.Data.Error.{DogpileError, Thrown, own, other}
use dogpile.Data.Event.{TurnEvent, FinalEvent}
use dogpile.Data.Model.{ModelMessage, MessageRole, ModelRequest, ModelResponse}
use dogpile.Data.Replay.{ReplayTraceProtocolDecision, ReplayTraceProviderCall}
use dogpile.Data.Trace.{
  RunEvent, Trace, trace, RunResult, run_result, of_list, agent_turn, final, budget_stop,
  role_assignment,
}
use dogpile.Accounting.{
  last_of, create_transcript_link, create_run_usage, create_run_accounting, create_run_metadata,
  create_replay_trace_budget_state_changes,
}
use dogpile.Decisions.{parse_agent_decision, is_participating_decision}
use dogpile.Decisions.Reading.{Texts, ParseContext, filled}
use dogpile.Health.{compute_health, default_health_thresholds}
use dogpile.ModelTurn.{ModelProvider, TurnOptions, TurnOutcome, generate_model_turn}
use dogpile.Replay.{
  Stringify, DecisionOptions, no_options, create_replay_trace_protocol_decision, decisions_from,
  create_replay_trace_run_inputs, create_replay_trace_budget, create_replay_trace_seed,
  create_replay_trace_final_output, next_provider_call_id,
}
use dogpile.Termination.Evaluate.{evaluate_termination_stop}
use dogpile.Tools.{ExecutorOptions, ExecutorState, execute_model_response_tool_requests}
use dogpile.Tools.Calls.{RuntimeTool, runtime_tool_availability}
use dogpile.WrapUp.Hint.{HintConfig, ControllerOptions, ContextOptions, controller_context, inject}

-- The points at which the run looks at the signal, with the number of the turn.
pub data Point : Type 0 where
  before_roles before_final : Point
  before_turn after_tools after_turn : ℕ → Point
  -- The checks in a model turn by their number.
  in_turn : ℕ → ℕ → Point

pub record SequentialRunOptions (F : Type 0) : Type 0 where
  pub intent : String
  pub limits : TurnLimits
  pub tier : BudgetTier
  pub model : ModelProvider F
  pub agents : List AgentSpec
  pub tools : List (RuntimeTool F)
  pub temperature : F
  pub budget : Option (BudgetCaps F)
  pub seed : Option String
  pub terminate : Option (TerminationCondition F)
  pub wrap_up_hint : Option (HintConfig F)
  -- What the run asks of its surroundings.
  pub run_id : String
  pub event_at : ℕ → String
  pub turn_at : ℕ → ℕ → String
  pub check : Point → Result (Thrown F) (Unit {0})
  pub elapsed_ms : Point → ℕ
  -- The clock is read again for the event of a stop.
  pub elapsed_at_stop : Point → ℕ
  pub texts : Texts F
  pub stringify : Stringify F
  pub copy_json : Json F → Json F

-- The variables of the run; `hinted` is the flag of the wrap-up hint and `call_count` the executor's.
pub record SequentialState (F : Type 0) : Type 0 where
  pub events : List (RunEvent F)
  pub transcript : List (TranscriptEntry F)
  pub protocol_decisions : List (ReplayTraceProtocolDecision F)
  pub provider_calls : List (ReplayTraceProviderCall F)
  pub total_cost : CostSummary F
  pub stopped : Bool
  pub termination : Option (TerminationStopRecord F)
  pub hinted : Bool
  pub call_count : ℕ

unfoldable pub tier_name : BudgetTier → String
tier_name fast = "fast"
tier_name balanced = "balanced"
tier_name quality = "quality"

unfoldable pub build_system_prompt : AgentSpec → String
build_system_prompt agent = str_append "You are " (
    str_append agent.id (
      str_append ", acting as " (
        str_append agent.role (
          str_append " in a Sequential multi-agent protocol." (elim (filled agent.instructions) [
            | none ↦ ""
            | some i ↦ str_append "\nInstructions: " i
          ])))))

-- Of "budget" exactly.
unfoldable pub is_budget : StopReason → Bool
is_budget budget_reason = true
is_budget reason = false

module _ {F : Type 0} where
  unfoldable pub entry_text : TranscriptEntry F → String
  entry_text e =
      str_append e.role (str_append " (" (str_append e.agent_id (str_append "): " e.output)))

  -- `join("\n\n")` of the entries.
  unfoldable pub prior_text : List (TranscriptEntry F) → String
  prior_text [] = ""
  prior_text (e ∷ []) = entry_text e
  prior_text (e ∷ (f ∷ es)) = str_append (entry_text e) (str_append "\n\n" (prior_text (f ∷ es)))

  unfoldable pub build_sequential_input : String → List (TranscriptEntry F) → String
  build_sequential_input intent [] =
      str_append "Mission: " (str_append intent "\nProvide your contribution.")
  build_sequential_input intent (e ∷ es) = str_append "Mission: " (
      str_append intent (
        str_append "\n\nPrior contributions:\n" (
          str_append (prior_text (e ∷ es))
            "\n\nContinue the sequence with a useful next contribution.")))

  unfoldable pub active_agents : SequentialRunOptions F → List AgentSpec
  active_agents o = take (get_or o.limits.max_turns (length o.agents)) o.agents

  unfoldable pub controller_options : SequentialRunOptions F → ControllerOptions F
  controller_options o = record {
    tier = o.tier;
    budget = o.budget;
    terminate = o.terminate;
    wrap_up_hint = o.wrap_up_hint;
  }

  -- The entry that gives the output: the last that participates, else the last with no decision.
  unfoldable pub undecided : Option (AgentDecision F) → Bool
  undecided none = true
  undecided (some d) = false

  unfoldable pub output_of : Option (TranscriptEntry F) → Option String
  output_of none = none
  output_of (some e) = some e.output

  unfoldable pub final_output : List (TranscriptEntry F) → String
  final_output transcript =
      get_or
        (or_else (output_of (find (λ e. is_participating_decision e.decision) (reverse transcript)))
          (output_of (find (λ e. undecided e.decision) (reverse transcript))))
        ""

module _ {F : Type 0} ⦃js : Js F⦄ where
  unfoldable pub initial_state : SequentialState F
  initial_state = record {
    events = [];
    transcript = [];
    protocol_decisions = [];
    provider_calls = [];
    total_cost = empty_cost;
    stopped = false;
    termination = none;
    hinted = false;
    call_count = 0;
  }

  unfoldable pub response_cost : ModelResponse F → CostSummary F
  response_cost r = record {
    usd = get_or r.cost_usd (js.of_nat 0);
    input_tokens = elim r.usage [ none ↦ 0 | some u ↦ u.input_tokens ];
    output_tokens = elim r.usage [ none ↦ 0 | some u ↦ u.output_tokens ];
    total_tokens = elim r.usage [ none ↦ 0 | some u ↦ u.total_tokens ];
  }

  -- `emit` and then `recordProtocolDecision`.
  unfoldable pub emit_decided :
      SequentialRunOptions F → DecisionOptions → RunEvent F → SequentialState F → SequentialState F
  emit_decided o options event st = record st {
    events = st.events ++ event ∷ [];
    protocol_decisions =
        st.protocol_decisions
        ++ create_replay_trace_protocol_decision o.stringify Protocol.sequential event
            (length st.events) options
          ∷ [];
  }

  unfoldable pub role_assigned : SequentialRunOptions F → ℕ → AgentSpec → RunEvent F
  role_assigned o n agent = role_assignment (record {
    run_id = o.run_id;
    parent_run_ids = none;
    at = o.event_at n;
    agent_id = agent.id;
    role = agent.role;
  })

  unfoldable pub assign_roles :
      SequentialRunOptions F → List AgentSpec → SequentialState F → SequentialState F
  assign_roles o [] st = st
  assign_roles o (a ∷ agents) st =
      assign_roles o agents (emit_decided o no_options (role_assigned o (length st.events) a) st)
