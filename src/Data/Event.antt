-- ===== src/Data/Event.antt =====
-- The run events that hold no other run (src/types/events.ts). Times are the ISO texts of the
-- source.
use dogpile.Base.{ℕ, String, List, Option, Bool}
use dogpile.Data.Json.{Json}
use dogpile.Data.Cost.{CostSummary}
use dogpile.Data.Agent.{Protocol, AgentDecision, ToolIdentity, ToolResult}
use dogpile.Data.Condition.{BudgetStopReason, TerminationStopRecord}
use dogpile.Data.Model.{ModelRequest, ModelResponse, RunEvaluation}

pub record RoleAssignmentEvent : Type 0 where
  pub run_id : String
  pub parent_run_ids : Option (List String)
  pub at : String
  pub agent_id : String
  pub role : String

pub record ModelRequestEvent (F : Type 0) : Type 0 where
  pub run_id : String
  pub parent_run_ids : Option (List String)
  pub started_at : String
  pub call_id : String
  pub provider_id : String
  pub model_id : String
  pub agent_id : String
  pub role : String
  pub request : ModelRequest F

pub record ModelResponseEvent (F : Type 0) : Type 0 where
  pub run_id : String
  pub parent_run_ids : Option (List String)
  pub started_at : String
  pub completed_at : String
  pub call_id : String
  pub provider_id : String
  pub model_id : String
  pub agent_id : String
  pub role : String
  pub response : ModelResponse F

pub record ModelOutputChunkEvent : Type 0 where
  pub run_id : String
  pub parent_run_ids : Option (List String)
  pub at : String
  pub agent_id : String
  pub role : String
  pub input : String
  pub chunk_index : ℕ
  pub text : String
  pub output : String

pub record ToolCallEvent (F : Type 0) : Type 0 where
  pub run_id : String
  pub parent_run_ids : Option (List String)
  pub at : String
  pub tool_call_id : String
  pub tool : ToolIdentity
  pub input : Json F
  pub agent_id : Option String
  pub role : Option String

pub record ToolResultEvent (F : Type 0) : Type 0 where
  pub run_id : String
  pub parent_run_ids : Option (List String)
  pub at : String
  pub tool_call_id : String
  pub tool : ToolIdentity
  pub result : ToolResult F
  pub agent_id : Option String
  pub role : Option String

pub record TurnEvent (F : Type 0) : Type 0 where
  pub run_id : String
  pub parent_run_ids : Option (List String)
  pub at : String
  pub agent_id : String
  pub role : String
  pub input : String
  pub output : String
  pub decision : Option (AgentDecision F)
  pub cost : CostSummary F

pub record BroadcastContribution (F : Type 0) : Type 0 where
  pub agent_id : String
  pub role : String
  pub output : String
  pub decision : Option (AgentDecision F)

pub record BroadcastEvent (F : Type 0) : Type 0 where
  pub run_id : String
  pub parent_run_ids : Option (List String)
  pub at : String
  pub round : ℕ
  pub contributions : List (BroadcastContribution F)
  pub cost : CostSummary F

pub record BudgetStopEvent (F : Type 0) : Type 0 where
  pub run_id : String
  pub parent_run_ids : Option (List String)
  pub at : String
  pub reason : BudgetStopReason
  pub cost : CostSummary F
  pub iteration : ℕ
  pub elapsed_ms : ℕ
  pub detail : Json F

pub record TranscriptLink : Type 0 where
  pub entry_count : ℕ
  pub last_entry_index : Option ℕ

pub record FinalEvent (F : Type 0) : Type 0 where
  pub run_id : String
  pub at : String
  pub output : String
  pub cost : CostSummary F
  pub transcript : TranscriptLink
  pub quality : Option F
  pub evaluation : Option (RunEvaluation F)
  pub termination : Option (TerminationStopRecord F)

-- The properties that the events of one sub-run share.
pub record SubRunIds : Type 0 where
  pub run_id : String
  pub parent_run_ids : Option (List String)
  pub at : String
  pub child_run_id : String
  pub parent_run_id : String
  pub parent_decision_id : String
  pub parent_decision_array_index : ℕ

pub record SubRunStartedEvent : Type 0 where
  pub ids : SubRunIds
  pub protocol : Protocol
  pub intent : String
  pub depth : ℕ
  pub recursive : Option Bool

pub record SubRunErrorPayload (F : Type 0) : Type 0 where
  pub code : String
  pub message : String
  pub provider_id : Option String
  pub detail : Option (Json F)

pub record SubRunParentAbortedEvent : Type 0 where
  pub run_id : String
  pub parent_run_ids : Option (List String)
  pub at : String
  pub child_run_id : String
  pub parent_run_id : String

pub record SubRunBudgetClampedEvent : Type 0 where
  pub run_id : String
  pub parent_run_ids : Option (List String)
  pub at : String
  pub child_run_id : String
  pub parent_run_id : String
  pub parent_decision_id : String
  pub requested_timeout_ms : ℕ
  pub clamped_timeout_ms : ℕ

pub record SubRunQueuedEvent : Type 0 where
  pub ids : SubRunIds
  pub protocol : Protocol
  pub intent : String
  pub depth : ℕ
  pub queue_position : ℕ

pub record SubRunConcurrencyClampedEvent : Type 0 where
  pub run_id : String
  pub parent_run_ids : Option (List String)
  pub at : String
  pub requested_max : ℕ
  pub effective_max : ℕ
  pub provider_id : String
