-- ===== src/Audit.antt =====
-- `createAuditRecord` of src/runtime/audit.ts.
pub mod Agents
mod Tests
use dogpile.Base.{
  ℕ, suc, zero, ◌+◌, Bool, true, false, Option, none, some, get_or, String, List, [], ◌∷◌, map,
  filter, find, reverse, Js, str_eq, length, if◌then◌else◌,
}
use dogpile.Data.Cost.{CostSummary}
use dogpile.Data.Agent.{Protocol, BudgetTier}
use dogpile.Data.Condition.{BudgetStopReason}
use dogpile.Data.Event.{TurnEvent, FinalEvent, BudgetStopEvent}
use dogpile.Data.Trace.{
  RunEvent, Trace, fields_of, events_of, agent_turn, final, budget_stop, sub_run_completed,
  role_assignment, model_request, model_response, model_output_chunk, tool_call, tool_result,
  broadcast, sub_run_started, sub_run_failed, sub_run_parent_aborted, sub_run_budget_clamped,
  sub_run_queued, sub_run_concurrency_clamped,
}

pub data AuditOutcome : Type 0 where
  completed aborted : AuditOutcome
  -- With the termination code.
  budget_stopped : BudgetStopReason → AuditOutcome

pub record AuditCost (F : Type 0) : Type 0 where
  pub usd : F
  pub input_tokens : ℕ
  pub output_tokens : ℕ

pub record AuditAgentRecord : Type 0 where
  pub id : String
  pub role : String
  pub turn_count : ℕ

pub record AuditRecord (F : Type 0) : Type 0 where
  pub run_id : String
  pub intent : String
  pub started_at : String
  pub completed_at : String
  pub protocol : Protocol
  pub tier : BudgetTier
  pub model_provider_id : String
  pub agent_count : ℕ
  pub turn_count : ℕ
  pub outcome : AuditOutcome
  pub cost : AuditCost F
  pub agents : List AuditAgentRecord
  pub child_run_ids : Option (List String)

module _ {F : Type 0} where
  -- `events.filter((event) => event.type === "agent-turn")`.
  unfoldable pub turns_of : List (RunEvent F) → List (TurnEvent F)
  turns_of [] = []
  turns_of (agent_turn t ∷ es) = t ∷ turns_of es
  turns_of (e ∷ es) = turns_of es

  unfoldable pub find_final : List (RunEvent F) → Option (FinalEvent F)
  find_final [] = none
  find_final (final f ∷ es) = some f
  find_final (e ∷ es) = find_final es

  unfoldable pub find_budget_stop : List (RunEvent F) → Option (BudgetStopEvent F)
  find_budget_stop [] = none
  find_budget_stop (budget_stop b ∷ es) = some b
  find_budget_stop (e ∷ es) = find_budget_stop es

  child_run_ids_of : List (RunEvent F) → List String
  child_run_ids_of [] = []
  child_run_ids_of (sub_run_completed ids r ∷ es) = ids.child_run_id ∷ child_run_ids_of es
  child_run_ids_of (e ∷ es) = child_run_ids_of es

  unfoldable pub outcome_of : Option (BudgetStopEvent F) → Option (FinalEvent F) → AuditOutcome
  outcome_of (some b) f = budget_stopped b.reason
  outcome_of none (some f) = completed
  outcome_of none none = aborted

  last_turn_cost : List (TurnEvent F) → Option (CostSummary F)
  last_turn_cost [] = none
  last_turn_cost (t ∷ ts) = some t.cost

  -- The source of the cost: the final event, else the budget stop, else the last turn.
  cost_source :
      Option (FinalEvent F)
      → Option (BudgetStopEvent F)
      → List (TurnEvent F)
      → Option (CostSummary F)
  unfolding last_turn_cost
  cost_source (some f) b turns = some f.cost
  cost_source none (some b) turns = some b.cost
  cost_source none none turns = last_turn_cost (reverse turns)

  -- One turn in the map from agents to their role and count, kept in the order of insertion.
  unfoldable pub count_turn : TurnEvent F → List AuditAgentRecord → List AuditAgentRecord
  count_turn t [] = record { id = t.agent_id; role = t.role; turn_count = 1 } ∷ []
  count_turn t (a ∷ agents) =
      let rest = count_turn t agents in
      if str_eq a.id t.agent_id
      then record { id = a.id; role = a.role; turn_count = suc a.turn_count } ∷ agents
      else a ∷ rest

  unfoldable pub count_turns : List (TurnEvent F) → List AuditAgentRecord → List AuditAgentRecord
  count_turns [] agents = agents
  count_turns (t ∷ ts) agents = count_turns ts (count_turn t agents)

  event_started_at : List (RunEvent F) → String
  event_started_at [] = ""
  event_started_at (role_assignment e ∷ es) = e.at
  event_started_at (model_request e ∷ es) = e.started_at
  event_started_at (model_response e ∷ es) = e.started_at
  event_started_at (model_output_chunk e ∷ es) = e.at
  event_started_at (tool_call e ∷ es) = e.at
  event_started_at (tool_result e ∷ es) = e.at
  event_started_at (agent_turn e ∷ es) = e.at
  event_started_at (broadcast e ∷ es) = e.at
  event_started_at (sub_run_started e ∷ es) = e.ids.at
  event_started_at (sub_run_completed ids r ∷ es) = ids.at
  event_started_at (sub_run_failed ids e t c ∷ es) = ids.at
  event_started_at (sub_run_parent_aborted e ∷ es) = e.at
  event_started_at (sub_run_budget_clamped e ∷ es) = e.at
  event_started_at (sub_run_queued e ∷ es) = e.ids.at
  event_started_at (sub_run_concurrency_clamped e ∷ es) = e.at
  event_started_at (budget_stop e ∷ es) = e.at
  event_started_at (final e ∷ es) = e.at

some_unless_empty : List String → Option (List String)
some_unless_empty [] = none
some_unless_empty (x ∷ xs) = some (x ∷ xs)

-- The stable sort by `localeCompare` of the ids.
insert_by :
    (String → String → Bool) → AuditAgentRecord → List AuditAgentRecord → List AuditAgentRecord
insert_by le a [] = a ∷ []
insert_by le a (b ∷ bs) =
    let rest = insert_by le a bs in if le a.id b.id then a ∷ b ∷ bs else b ∷ rest

unfoldable pub sort_by : (String → String → Bool) → List AuditAgentRecord → List AuditAgentRecord
unfolding insert_by
sort_by le [] = []
sort_by le (a ∷ rs) = insert_by le a (sort_by le rs)

module _ {F : Type 0} ⦃js : Js F⦄ where
  audit_cost : Option (CostSummary F) → AuditCost F
  audit_cost none = record { usd = js.of_nat 0; input_tokens = 0; output_tokens = 0 }
  audit_cost (some c) = record {
    usd = c.usd;
    input_tokens = c.input_tokens;
    output_tokens = c.output_tokens;
  }

  unfoldable pub create_audit_record : Trace F → AuditRecord F
  unfolding audit_cost cost_source some_unless_empty child_run_ids_of event_started_at
  create_audit_record t =
      let events = events_of t in
      let fields = fields_of t in
      let final_event = find_final events in
      let budget_stop_event = find_budget_stop events in
      let turns = turns_of events in
      let agents = count_turns turns [] in
      record {
        run_id = fields.run_id;
        intent = fields.inputs.intent;
        started_at = event_started_at events;
        completed_at = fields.final_output.completed_at;
        protocol = fields.protocol;
        tier = fields.tier;
        model_provider_id = fields.model_provider_id;
        agent_count = length agents;
        turn_count = length turns;
        outcome = outcome_of budget_stop_event final_event;
        cost = audit_cost (cost_source final_event budget_stop_event turns);
        agents = sort_by js.locale_le agents;
        child_run_ids = some_unless_empty (child_run_ids_of events);
      }
