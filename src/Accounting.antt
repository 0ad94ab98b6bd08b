-- ===== src/Accounting.antt =====
-- The accounting of a run from its events (src/runtime/defaults.ts): cost sums, the changes of the
-- budget, cap utilization, metadata, the event log and the timestamp of an event.
pub mod Recompute
pub mod Changes
mod Tests
use dogpile.Base.{
  or_else, ℕ, suc, ◌-◌, ◌==◌, ◌&&◌, Option, none, some, String, List, [], ◌∷◌, ◌++◌, map, reverse,
  length, Js, if◌then◌else◌,
}
use dogpile.Data.Cost.{CostSummary, empty_cost, add_cost}
use dogpile.Data.Agent.{Protocol, BudgetTier, BudgetCaps, AgentSpec, TranscriptEntry}
use dogpile.Data.Condition.{TerminationCondition}
use dogpile.Data.Event.{TranscriptLink}
use dogpile.Data.Replay.{EventType, BudgetStateChange, RunAccounting, RunMetadata}
use dogpile.Data.Trace.{
  RunEvent, result_fields, type_of, agent_turn, final, budget_stop, sub_run_completed,
  role_assignment, model_request, model_response, model_output_chunk, tool_call, tool_result,
  broadcast, sub_run_started, sub_run_failed, sub_run_parent_aborted, sub_run_budget_clamped,
  sub_run_queued, sub_run_concurrency_clamped,
}

pub record RunEventLog (F : Type 0) : Type 0 where
  pub run_id : String
  pub protocol : Protocol
  pub event_types : List EventType
  pub event_count : ℕ
  pub events : List (RunEvent F)

-- `xs.at(-1)`.
abbrev pub last_of {ℓ} : {A : Type ℓ} → List A → Option A
last_of [] = none
last_of (x ∷ []) = some x
last_of (x ∷ (y ∷ ys)) = last_of (y ∷ ys)

abbrev pub first_item {ℓ} : {A : Type ℓ} → List A → Option A
first_item [] = none
first_item (x ∷ xs) = some x

module _ {F : Type 0} where
  unfoldable pub create_transcript_link : List (TranscriptEntry F) → TranscriptLink
  create_transcript_link transcript = record {
    entry_count = length transcript;
    last_entry_index = if length transcript == 0 then none else some (length transcript - 1);
  }

  unfoldable pub create_run_event_log : String → Protocol → List (RunEvent F) → RunEventLog F
  create_run_event_log run_id protocol events = record {
    run_id = run_id;
    protocol = protocol;
    event_types = map type_of events;
    event_count = length events;
    events = events;
  }

  unfoldable pub create_run_usage : CostSummary F → CostSummary F
  create_run_usage cost = record {
    usd = cost.usd;
    input_tokens = cost.input_tokens;
    output_tokens = cost.output_tokens;
    total_tokens = cost.total_tokens;
  }

  -- The change of the budget that one event is, if it is one.
  unfoldable pub budget_state_change : ℕ → RunEvent F → List (BudgetStateChange F)
  budget_state_change i (agent_turn e) =
      record {
        event_index = i;
        event_type = EventType.agent_turn;
        at = e.at;
        cost = e.cost;
        iteration = none;
        elapsed_ms = none;
        budget_reason = none;
      }
      ∷ []
  budget_state_change i (broadcast e) =
      record {
        event_index = i;
        event_type = EventType.broadcast;
        at = e.at;
        cost = e.cost;
        iteration = none;
        elapsed_ms = none;
        budget_reason = none;
      }
      ∷ []
  budget_state_change i (final e) =
      record {
        event_index = i;
        event_type = EventType.final;
        at = e.at;
        cost = e.cost;
        iteration = none;
        elapsed_ms = none;
        budget_reason = none;
      }
      ∷ []
  budget_state_change i (budget_stop e) =
      record {
        event_index = i;
        event_type = EventType.budget_stop;
        at = e.at;
        cost = e.cost;
        iteration = some e.iteration;
        elapsed_ms = some e.elapsed_ms;
        budget_reason = some e.reason;
      }
      ∷ []
  budget_state_change i e = []

  -- `flatMap` over the events from index `i` on.
  unfoldable pub changes_from : ℕ → List (RunEvent F) → List (BudgetStateChange F)
  changes_from i [] = []
  changes_from i (e ∷ es) = budget_state_change i e ++ changes_from (suc i) es

  unfoldable pub create_replay_trace_budget_state_changes :
      List (RunEvent F) → List (BudgetStateChange F)
  create_replay_trace_budget_state_changes events = changes_from 0 events

  unfoldable pub event_timestamp : RunEvent F → String
  event_timestamp (role_assignment e) = e.at
  event_timestamp (model_request e) = e.started_at
  event_timestamp (model_response e) = e.completed_at
  event_timestamp (model_output_chunk e) = e.at
  event_timestamp (tool_call e) = e.at
  event_timestamp (tool_result e) = e.at
  event_timestamp (agent_turn e) = e.at
  event_timestamp (broadcast e) = e.at
  event_timestamp (sub_run_started e) = e.ids.at
  event_timestamp (sub_run_completed ids r) = ids.at
  event_timestamp (sub_run_failed ids e t c) = ids.at
  event_timestamp (sub_run_parent_aborted e) = e.at
  event_timestamp (sub_run_budget_clamped e) = e.at
  event_timestamp (sub_run_queued e) = e.ids.at
  event_timestamp (sub_run_concurrency_clamped e) = e.at
  event_timestamp (budget_stop e) = e.at
  event_timestamp (final e) = e.at

  -- `eventTimestamp(event) ?? ""`.
  unfoldable pub timestamp_or_empty : Option (RunEvent F) → String
  timestamp_or_empty none = ""
  timestamp_or_empty (some e) = event_timestamp e

  unfoldable pub create_run_metadata :
      String → Protocol → BudgetTier → String → List AgentSpec → List (RunEvent F) → RunMetadata
  create_run_metadata run_id protocol tier model_provider_id agents_used events = record {
    run_id = run_id;
    protocol = protocol;
    tier = tier;
    model_provider_id = model_provider_id;
    agents_used = agents_used;
    started_at = timestamp_or_empty (first_item events);
    completed_at = timestamp_or_empty (last_of events);
  }

  -- The cost of an event that bears the cost of the run so far.
  unfoldable pub bearing : RunEvent F → Option (CostSummary F)
  bearing (final e) = some e.cost
  bearing (agent_turn e) = some e.cost
  bearing (broadcast e) = some e.cost
  bearing (budget_stop e) = some e.cost
  bearing e = none

  -- The loop from the last event down to the first.
  unfoldable pub first_bearing : List (RunEvent F) → Option (CostSummary F)
  first_bearing [] = none
  first_bearing (e ∷ es) = or_else (bearing e) (first_bearing es)

  unfoldable pub last_cost_bearing_event_cost : List (RunEvent F) → Option (CostSummary F)
  last_cost_bearing_event_cost events = first_bearing (reverse events)

module _ {F : Type 0} ⦃js : Js F⦄ where
  -- `total` is the sum over the events before.
  unfoldable pub accumulate_from : CostSummary F → List (RunEvent F) → CostSummary F
  accumulate_from total [] = total
  accumulate_from total (sub_run_completed ids r ∷ es) =
      accumulate_from (add_cost total (result_fields r).cost) es
  accumulate_from total (sub_run_failed ids e t partial_cost ∷ es) =
      accumulate_from (add_cost total partial_cost) es
  accumulate_from total (e ∷ es) = accumulate_from total es

  unfoldable pub accumulate_sub_run_cost : List (RunEvent F) → CostSummary F
  unfolding empty_cost
  accumulate_sub_run_cost events = accumulate_from empty_cost events

  unfoldable pub usd_cap_utilization : F → Option F → Option F
  usd_cap_utilization usd none = none
  usd_cap_utilization usd (some max_usd) = some (
      if js.le max_usd (js.of_nat 0) && js.le (js.of_nat 0) max_usd
      then js.of_nat 0
      else js.div usd max_usd)

  unfoldable pub token_cap_utilization : ℕ → Option ℕ → Option F
  token_cap_utilization tokens none = none
  token_cap_utilization tokens (some max_tokens) =
      some
        (if max_tokens == 0 then js.of_nat 0 else js.div (js.of_nat tokens) (js.of_nat max_tokens))

  unfoldable pub create_run_accounting :
      BudgetTier
      → Option (BudgetCaps F)
      → Option (TerminationCondition F)
      → CostSummary F
      → List (RunEvent F)
      → RunAccounting F
  create_run_accounting tier budget termination cost events = record {
    tier = tier;
    budget = budget;
    termination = termination;
    usage = create_run_usage cost;
    cost = cost;
    budget_state_changes = create_replay_trace_budget_state_changes events;
    usd_cap_utilization = elim budget [
      | none ↦ none
      | some caps ↦ usd_cap_utilization cost.usd caps.max_usd
    ];
    total_token_cap_utilization = elim budget [
      | none ↦ none
      | some caps ↦ token_cap_utilization cost.total_tokens caps.max_tokens
    ];
  }
