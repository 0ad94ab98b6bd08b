-- ===== src/Replay.antt =====
-- The parts of a saved trace that src/runtime/defaults.ts makes from the events of a run: the protocol
-- decisions, the seed, the final output and the ids of provider calls.
pub mod Canonical
pub mod Decisions
mod Tests
use Prim.Native.String.{◌++◌ as str_append}
use dogpile.Base.{or_else, ℕ, suc, Option, none, some, String, List, [], ◌∷◌, map, length, Js}
use dogpile.Data.Json.{Json}
use dogpile.Data.Cost.{CostSummary, empty_cost}
use dogpile.Data.Agent.{Protocol, ProtocolConfig, BudgetTier, BudgetCaps, AgentSpec}
use dogpile.Data.Condition.{TerminationCondition}
use dogpile.Data.Replay.{
  EventType, ReplayTraceSeed, ReplayTraceRunInputs, ReplayTraceBudget, DecisionType, assign_role,
  select_agent_turn, start_model_call, complete_model_call, observe_model_output, start_tool_call,
  complete_tool_call, collect_broadcast_round, stop_for_budget, finalize_output, start_sub_run,
  complete_sub_run, fail_sub_run, mark_sub_run_parent_aborted, mark_sub_run_budget_clamped,
  queue_sub_run, mark_sub_run_concurrency_clamped, DecisionPhase, ReplayTraceProtocolDecision,
  ReplayTraceProviderCall, ReplayTraceFinalOutput,
}
use dogpile.Data.Trace.{
  RunEvent, result_fields, type_of, agent_turn, final, budget_stop, sub_run_completed,
  role_assignment, model_request, model_response, model_output_chunk, tool_call, tool_result,
  broadcast, sub_run_started, sub_run_failed, sub_run_parent_aborted, sub_run_budget_clamped,
  sub_run_queued, sub_run_concurrency_clamped,
}
use dogpile.Data.Agent.{ToolResult}
use dogpile.Accounting.{event_timestamp}
use dogpile.Replay.Canonical.{stable_json_stringify}

pub record DecisionOptions : Type 0 where
  pub decision : Option DecisionType
  pub turn : Option ℕ
  pub phase : Option DecisionPhase
  pub round : Option ℕ
  pub transcript_entry_count : Option ℕ
  pub contribution_count : Option ℕ

abbrev pub no_options : DecisionOptions
no_options = record {
  decision = none;
  turn = none;
  phase = none;
  round = none;
  transcript_entry_count = none;
  contribution_count = none;
}

-- `JSON.stringify` on an input, and on a tool result, which is an object of the record's properties.
pub record Stringify (F : Type 0) : Type 0 where
  pub stringify : Json F → String
  pub result_json : ToolResult F → Json F

-- `texts.join("\n")`.
unfoldable pub join_lines : List String → String
join_lines [] = ""
join_lines (x ∷ []) = x
join_lines (x ∷ (y ∷ ys)) = str_append x (str_append "\n" (join_lines (y ∷ ys)))

unfoldable pub create_replay_trace_seed : Option String → ReplayTraceSeed
create_replay_trace_seed seed = record { value = seed }

module _ {F : Type 0} where
  unfoldable pub create_replay_trace_run_inputs :
      String → ProtocolConfig → BudgetTier → String → List AgentSpec → F → ReplayTraceRunInputs F
  create_replay_trace_run_inputs intent protocol tier model_provider_id agents temperature =
      record {
        intent = intent;
        protocol = protocol;
        tier = tier;
        model_provider_id = model_provider_id;
        agents = agents;
        temperature = temperature;
      }

  unfoldable pub create_replay_trace_budget :
      BudgetTier → Option (BudgetCaps F) → Option (TerminationCondition F) → ReplayTraceBudget F
  create_replay_trace_budget tier caps termination = record {
    tier = tier;
    caps = caps;
    termination = termination;
  }

  unfoldable pub default_protocol_decision : RunEvent F → DecisionType
  default_protocol_decision (role_assignment e) = assign_role
  default_protocol_decision (model_request e) = start_model_call
  default_protocol_decision (model_response e) = complete_model_call
  default_protocol_decision (model_output_chunk e) = observe_model_output
  default_protocol_decision (tool_call e) = start_tool_call
  default_protocol_decision (tool_result e) = complete_tool_call
  default_protocol_decision (agent_turn e) = select_agent_turn
  default_protocol_decision (broadcast e) = collect_broadcast_round
  default_protocol_decision (budget_stop e) = stop_for_budget
  default_protocol_decision (final e) = finalize_output
  default_protocol_decision (sub_run_started e) = start_sub_run
  default_protocol_decision (sub_run_completed ids r) = complete_sub_run
  default_protocol_decision (sub_run_failed ids e t c) = fail_sub_run
  default_protocol_decision (sub_run_parent_aborted e) = mark_sub_run_parent_aborted
  default_protocol_decision (sub_run_budget_clamped e) = mark_sub_run_budget_clamped
  default_protocol_decision (sub_run_queued e) = queue_sub_run
  default_protocol_decision (sub_run_concurrency_clamped e) = mark_sub_run_concurrency_clamped

module _ {F : Type 0} ⦃js : Js F⦄ where
  unfoldable pub next_provider_call_id : String → List (ReplayTraceProviderCall F) → String
  next_provider_call_id run_id provider_calls =
      str_append run_id (str_append ":provider-call:" (js.show_nat (suc (length provider_calls))))

  unfoldable pub create_replay_trace_final_output : String → RunEvent F → ReplayTraceFinalOutput F
  unfolding empty_cost
  create_replay_trace_final_output output (final e) = record {
    output = output;
    cost = e.cost;
    completed_at = e.at;
    transcript = e.transcript;
  }
  create_replay_trace_final_output output e = record {
    output = output;
    cost = empty_cost;
    completed_at = event_timestamp e;
    transcript = record { entry_count = 0; last_entry_index = none };
  }

  -- The properties that each decision has, whatever its event.
  unfoldable pub decision_base :
      Protocol → RunEvent F → ℕ → DecisionOptions → ReplayTraceProtocolDecision F
  decision_base protocol event event_index options = record {
    event_index = event_index;
    event_type = type_of event;
    protocol = protocol;
    decision = elim options.decision [ some d ↦ d | none ↦ default_protocol_decision event ];
    at = event_timestamp event;
    agent_id = none;
    role = none;
    call_id = none;
    provider_id = none;
    child_run_id = none;
    queue_position = none;
    tool_call_id = none;
    tool = none;
    turn = options.turn;
    phase = options.phase;
    round = options.round;
    transcript_entry_count = options.transcript_entry_count;
    contribution_count = options.contribution_count;
    input = none;
    output = none;
    cost = none;
    budget_reason = none;
  }

  -- The properties of `base` with those of the event.
  unfoldable pub with_event :
      Stringify F
      → DecisionOptions
      → ReplayTraceProtocolDecision F
      → RunEvent F
      → ReplayTraceProtocolDecision F
  with_event s options base (role_assignment e) = record base {
    agent_id = some e.agent_id;
    role = some e.role;
  }
  with_event s options base (model_request e) = record base {
    agent_id = some e.agent_id;
    role = some e.role;
    call_id = some e.call_id;
    provider_id = some e.provider_id;
    input = some (join_lines (map (λ m. m.content) e.request.messages));
  }
  with_event s options base (model_response e) = record base {
    agent_id = some e.agent_id;
    role = some e.role;
    call_id = some e.call_id;
    provider_id = some e.provider_id;
    output = some e.response.text;
  }
  with_event s options base (model_output_chunk e) = record base {
    agent_id = some e.agent_id;
    role = some e.role;
    input = some e.input;
    output = some e.output;
  }
  with_event s options base (tool_call e) = record base {
    tool_call_id = some e.tool_call_id;
    tool = some e.tool;
    input = some (stable_json_stringify s.stringify e.input);
    agent_id = e.agent_id;
    role = e.role;
  }
  with_event s options base (tool_result e) = record base {
    tool_call_id = some e.tool_call_id;
    tool = some e.tool;
    output = some (stable_json_stringify s.stringify (s.result_json e.result));
    agent_id = e.agent_id;
    role = e.role;
  }
  with_event s options base (agent_turn e) = record base {
    agent_id = some e.agent_id;
    role = some e.role;
    input = some e.input;
    output = some e.output;
    cost = some e.cost;
  }
  with_event s options base (broadcast e) = record base {
    round = some e.round;
    contribution_count = or_else options.contribution_count (some (length e.contributions));
    cost = some e.cost;
  }
  with_event s options base (budget_stop e) = record base {
    cost = some e.cost;
    budget_reason = some e.reason;
  }
  with_event s options base (final e) = record base { output = some e.output; cost = some e.cost }
  with_event s options base (sub_run_started e) = record base { input = some e.intent }
  with_event s options base (sub_run_completed ids r) = record base {
    output = some (result_fields r).output;
    cost = some (result_fields r).cost;
  }
  with_event s options base (sub_run_queued e) = record base {
    child_run_id = some e.ids.child_run_id;
    queue_position = some e.queue_position;
  }
  with_event s options base e = base

  unfoldable pub create_replay_trace_protocol_decision :
      Stringify F → Protocol → RunEvent F → ℕ → DecisionOptions → ReplayTraceProtocolDecision F
  create_replay_trace_protocol_decision s protocol event event_index options =
      with_event s options (decision_base protocol event event_index options) event

  -- `events.map(…)` from index `i` on.
  unfoldable pub decisions_from :
      Stringify F → Protocol → ℕ → List (RunEvent F) → List (ReplayTraceProtocolDecision F)
  decisions_from s protocol i [] = []
  decisions_from s protocol i (e ∷ es) =
      create_replay_trace_protocol_decision s protocol e i no_options
      ∷ decisions_from s protocol (suc i) es

  unfoldable pub create_replay_trace_protocol_decisions :
      Stringify F → Protocol → List (RunEvent F) → List (ReplayTraceProtocolDecision F)
  create_replay_trace_protocol_decisions s protocol events = decisions_from s protocol 0 events
