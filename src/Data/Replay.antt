-- ===== src/Data/Replay.antt =====
-- The parts of a saved trace (src/types/replay.ts), and the accounting of a run (src/types.ts).
use dogpile.Base.{ℕ, String, List, Option}
use dogpile.Data.Cost.{CostSummary}
use dogpile.Data.Agent.{
  Protocol, ProtocolConfig, BudgetTier, BudgetCaps, AgentSpec, ToolIdentity, TranscriptEntry,
}
use dogpile.Data.Condition.{BudgetStopReason, TerminationCondition}
use dogpile.Data.Model.{ModelRequest, ModelResponse, RunEvaluation, RunHealthSummary}
use dogpile.Data.Event.{TranscriptLink}

-- The `type` of each run event.
pub data EventType : Type 0 where
  role_assignment model_request model_response model_output_chunk tool_call tool_result : EventType
  agent_turn broadcast budget_stop final : EventType
  sub_run_started sub_run_completed sub_run_failed sub_run_parent_aborted : EventType
  sub_run_budget_clamped sub_run_queued sub_run_concurrency_clamped : EventType

-- `source` is "caller" exactly when there is a value; a numeric seed is kept as its text.
pub record ReplayTraceSeed : Type 0 where
  pub value : Option String

pub record ReplayTraceRunInputs (F : Type 0) : Type 0 where
  pub intent : String
  pub protocol : ProtocolConfig
  pub tier : BudgetTier
  pub model_provider_id : String
  pub agents : List AgentSpec
  pub temperature : F

pub record ReplayTraceBudget (F : Type 0) : Type 0 where
  pub tier : BudgetTier
  pub caps : Option (BudgetCaps F)
  pub termination : Option (TerminationCondition F)

pub record BudgetStateChange (F : Type 0) : Type 0 where
  pub event_index : ℕ
  pub event_type : EventType
  pub at : String
  pub cost : CostSummary F
  pub iteration : Option ℕ
  pub elapsed_ms : Option ℕ
  pub budget_reason : Option BudgetStopReason

pub data DecisionType : Type 0 where
  assign_role select_agent_turn start_model_call complete_model_call : DecisionType
  observe_model_output start_tool_call complete_tool_call collect_broadcast_round : DecisionType
  stop_for_budget finalize_output start_sub_run complete_sub_run fail_sub_run : DecisionType
  mark_sub_run_parent_aborted mark_sub_run_budget_clamped queue_sub_run : DecisionType
  mark_sub_run_concurrency_clamped : DecisionType

pub data DecisionPhase : Type 0 where
  plan worker final_synthesis : DecisionPhase

pub record ReplayTraceProtocolDecision (F : Type 0) : Type 0 where
  pub event_index : ℕ
  pub event_type : EventType
  pub protocol : Protocol
  pub decision : DecisionType
  pub at : String
  pub agent_id : Option String
  pub role : Option String
  pub call_id : Option String
  pub provider_id : Option String
  pub child_run_id : Option String
  pub queue_position : Option ℕ
  pub tool_call_id : Option String
  pub tool : Option ToolIdentity
  pub turn : Option ℕ
  pub phase : Option DecisionPhase
  pub round : Option ℕ
  pub transcript_entry_count : Option ℕ
  pub contribution_count : Option ℕ
  pub input : Option String
  pub output : Option String
  pub cost : Option (CostSummary F)
  pub budget_reason : Option BudgetStopReason

pub record ReplayTraceProviderCall (F : Type 0) : Type 0 where
  pub call_id : String
  pub provider_id : String
  pub model_id : String
  pub started_at : String
  pub completed_at : String
  pub agent_id : String
  pub role : String
  pub request : ModelRequest F
  pub response : ModelResponse F

pub record ReplayTraceFinalOutput (F : Type 0) : Type 0 where
  pub output : String
  pub cost : CostSummary F
  pub completed_at : String
  pub transcript : TranscriptLink

-- A dispatch failure kept for "abort" mode; `reason` is the property of its error's detail.
pub record DispatchWaveFailure (F : Type 0) : Type 0 where
  pub child_run_id : String
  pub intent : String
  pub code : String
  pub message : String
  pub reason : Option String
  pub partial_usd : F

-- `RunUsage` has the properties of a cost summary.
pub record RunAccounting (F : Type 0) : Type 0 where
  pub tier : BudgetTier
  pub budget : Option (BudgetCaps F)
  pub termination : Option (TerminationCondition F)
  pub usage : CostSummary F
  pub cost : CostSummary F
  pub budget_state_changes : List (BudgetStateChange F)
  pub usd_cap_utilization : Option F
  pub total_token_cap_utilization : Option F

pub record RunMetadata : Type 0 where
  pub run_id : String
  pub protocol : Protocol
  pub tier : BudgetTier
  pub model_provider_id : String
  pub agents_used : List AgentSpec
  pub started_at : String
  pub completed_at : String

-- A trace without its events.
pub record TraceFields (F : Type 0) : Type 0 where
  pub run_id : String
  pub protocol : Protocol
  pub tier : BudgetTier
  pub model_provider_id : String
  pub agents_used : List AgentSpec
  pub inputs : ReplayTraceRunInputs F
  pub budget : ReplayTraceBudget F
  pub budget_state_changes : List (BudgetStateChange F)
  pub seed : ReplayTraceSeed
  pub protocol_decisions : List (ReplayTraceProtocolDecision F)
  pub provider_calls : List (ReplayTraceProviderCall F)
  pub final_output : ReplayTraceFinalOutput F
  pub triggering_failure_for_abort_mode : Option (DispatchWaveFailure F)
  pub transcript : List (TranscriptEntry F)

-- A run's result without its trace and its event log.
pub record ResultFields (F : Type 0) : Type 0 where
  pub output : String
  pub transcript : List (TranscriptEntry F)
  pub usage : CostSummary F
  pub metadata : RunMetadata
  pub accounting : RunAccounting F
  pub cost : CostSummary F
  pub quality : Option F
  pub evaluation : Option (RunEvaluation F)
  pub health : RunHealthSummary F
