-- ===== src/Replay/Decisions.antt =====
-- The protocol decisions of a replay trace against the event log they come from.
use dogpile.Base.{ℕ, suc, String, List, [], ◌∷◌, map, Js, ◌≡◌, refl, ap₂}
use dogpile.Data.Agent.{Protocol}
use dogpile.Data.Replay.{
  EventType, DecisionType, assign_role, select_agent_turn, start_model_call, complete_model_call,
  observe_model_output, start_tool_call, complete_tool_call, collect_broadcast_round,
  stop_for_budget, finalize_output, start_sub_run, complete_sub_run, fail_sub_run,
  mark_sub_run_parent_aborted, mark_sub_run_budget_clamped, queue_sub_run,
  mark_sub_run_concurrency_clamped, ReplayTraceProtocolDecision,
}
use dogpile.Data.Trace.{RunEvent, type_of, role_assignment}
use dogpile.Accounting.{event_timestamp, create_run_event_log}
use dogpile.Replay.{
  Stringify, DecisionOptions, no_options, default_protocol_decision, decision_base, with_event,
  create_replay_trace_protocol_decision, decisions_from, create_replay_trace_protocol_decisions,
}

-- The type of event that a decision is made for.
pub decided_type : DecisionType → EventType
decided_type assign_role = EventType.role_assignment
decided_type start_model_call = EventType.model_request
decided_type complete_model_call = EventType.model_response
decided_type observe_model_output = EventType.model_output_chunk
decided_type start_tool_call = EventType.tool_call
decided_type complete_tool_call = EventType.tool_result
decided_type select_agent_turn = EventType.agent_turn
decided_type collect_broadcast_round = EventType.broadcast
decided_type stop_for_budget = EventType.budget_stop
decided_type finalize_output = EventType.final
decided_type start_sub_run = EventType.sub_run_started
decided_type complete_sub_run = EventType.sub_run_completed
decided_type fail_sub_run = EventType.sub_run_failed
decided_type mark_sub_run_parent_aborted = EventType.sub_run_parent_aborted
decided_type mark_sub_run_budget_clamped = EventType.sub_run_budget_clamped
decided_type queue_sub_run = EventType.sub_run_queued
decided_type mark_sub_run_concurrency_clamped = EventType.sub_run_concurrency_clamped

-- The numbers from `i` on, one for each event.
pub indices : {A : Type 0} → ℕ → List A → List ℕ
indices i [] = []
indices i (x ∷ xs) = i ∷ indices (suc i) xs

module _ {F : Type 0} ⦃js : Js F⦄ where
  -- What a decision says of its event, whatever the options.
  pub Describes : Protocol → ℕ → RunEvent F → ReplayTraceProtocolDecision F → Type 0
  Describes protocol i e d =
      (d.event_index ≡ i)
      × (d.event_type ≡ type_of e)
      × (d.protocol ≡ protocol)
      × (d.at ≡ event_timestamp e)

  pub create_replay_trace_protocol_decision-Describes :
      (s : Stringify F) (protocol : Protocol) (e : RunEvent F) (i : ℕ) (options : DecisionOptions)
      → Describes protocol i e (create_replay_trace_protocol_decision s protocol e i options)
  unfolding create_replay_trace_protocol_decision with_event decision_base Describes
  create_replay_trace_protocol_decision-Describes s protocol e i options =
      elim e
        as (λ e.
          Describes protocol i e (create_replay_trace_protocol_decision s protocol e i options)) [
            | role_assignment x ↦ (refl, refl, refl, refl)
            | _ ↦ (refl, refl, refl, refl)
          ]

  default_protocol_decision-decided :
      (s : Stringify F) (protocol : Protocol) (e : RunEvent F) (i : ℕ)
      → decided_type (create_replay_trace_protocol_decision s protocol e i no_options).decision
        ≡ type_of e
  unfolding create_replay_trace_protocol_decision with_event decision_base default_protocol_decision
      decided_type
  default_protocol_decision-decided s protocol e i =
      elim e
        as (λ e.
          decided_type (create_replay_trace_protocol_decision s protocol e i no_options).decision
          ≡ type_of e) [ role_assignment x ↦ refl | _ ↦ refl ]

  decisions_from_lem :
      (s : Stringify F) (protocol : Protocol) (i : ℕ) (es : List (RunEvent F))
      → (map (λ d. decided_type d.decision) (decisions_from s protocol i es) ≡ map type_of es)
        × (map (λ d. d.event_type) (decisions_from s protocol i es) ≡ map type_of es)
        × (map (λ d. d.at) (decisions_from s protocol i es) ≡ map event_timestamp es)
        × (map (λ d. d.event_index) (decisions_from s protocol i es) ≡ indices i es)
  unfolding decisions_from indices Describes
  decisions_from_lem s protocol i [] = (refl, refl, refl, refl)
  decisions_from_lem s protocol i (e ∷ es) =
      let (decided, types, times, indexed) = decisions_from_lem s protocol (suc i) es in
      let (at_i, of_type, of_protocol, at_time) =
        create_replay_trace_protocol_decision-Describes s protocol e i no_options in
      (
        ap₂ ◌∷◌ (default_protocol_decision-decided s protocol e i) decided,
        ap₂ ◌∷◌ of_type types,
        ap₂ ◌∷◌ at_time times,
        ap₂ ◌∷◌ at_i indexed,
      )

  -- The protocol decisions of a log name its event types, both where they record them and by what each
  -- decides, so that the types can be read back from the decisions; they stand at the events' times
  -- and are numbered from 0.
  pub create_replay_trace_protocol_decisions_lem :
      (s : Stringify F) (protocol : Protocol) (run_id : String) (es : List (RunEvent F))
      → (map (λ d. decided_type d.decision) (create_replay_trace_protocol_decisions s protocol es)
          ≡ (create_run_event_log run_id protocol es).event_types)
        × (map (λ d. d.event_type) (create_replay_trace_protocol_decisions s protocol es)
            ≡ (create_run_event_log run_id protocol es).event_types)
        × (map (λ d. d.at) (create_replay_trace_protocol_decisions s protocol es)
            ≡ map event_timestamp es)
        × (map (λ d. d.event_index) (create_replay_trace_protocol_decisions s protocol es)
            ≡ indices 0 es)
  unfolding create_replay_trace_protocol_decisions create_run_event_log
  create_replay_trace_protocol_decisions_lem s protocol run_id es =
      decisions_from_lem s protocol 0 es
