-- ===== src/Data/Agent.antt =====
-- Protocols, budgets, agents, their decisions and the transcript (src/types.ts,
-- src/types/events.ts). An optional property is an `Option`.
use dogpile.Base.{ℕ, Bool, String, List, Option}
use dogpile.Data.Json.{Json}

pub data Protocol : Type 0 where
  coordinator sequential broadcast shared : Protocol

pub data BudgetTier : Type 0 where
  fast balanced quality : BudgetTier

pub record TurnLimits : Type 0 where
  pub max_turns : Option ℕ
  pub min_turns : Option ℕ

pub record RoundLimits : Type 0 where
  pub max_rounds : Option ℕ
  pub min_rounds : Option ℕ

pub data ProtocolConfig : Type 0 where
  sequential_config coordinator_config : TurnLimits → ProtocolConfig
  broadcast_config : RoundLimits → ProtocolConfig
  shared_config : TurnLimits → Option String → ProtocolConfig

pub record BudgetCaps (F : Type 0) : Type 0 where
  pub max_usd : Option F
  pub max_tokens : Option ℕ
  pub max_iterations : Option ℕ
  pub timeout_ms : Option ℕ
  pub quality_weight : Option F

pub record AgentSpec : Type 0 where
  pub id : String
  pub role : String
  pub instructions : Option String

pub data AgentParticipation : Type 0 where
  contribute abstain : AgentParticipation

pub record ParticipateDecision : Type 0 where
  pub selected_role : String
  pub participation : AgentParticipation
  pub rationale : String
  pub contribution : String

pub record DelegateDecision (F : Type 0) : Type 0 where
  pub protocol : Protocol
  pub intent : String
  pub model : Option String
  pub budget : Option (BudgetCaps F)
  pub max_concurrent_children : Option ℕ

-- `AgentDecision | readonly DelegateAgentDecision[]`.
pub data AgentDecision (F : Type 0) : Type 0 where
  participate : ParticipateDecision → AgentDecision F
  delegate : DelegateDecision F → AgentDecision F
  delegates : List (DelegateDecision F) → AgentDecision F

pub record ToolIdentity : Type 0 where
  pub id : String
  pub name : String
  pub namespace : Option String
  pub version : Option String
  pub description : Option String

pub record ToolError (F : Type 0) : Type 0 where
  pub code : String
  pub message : String
  pub retryable : Option Bool
  pub detail : Option (Json F)

pub data ToolResult (F : Type 0) : Type 0 where
  success : String → ToolIdentity → Json F → Option (Json F) → ToolResult F
  failure : String → ToolIdentity → ToolError F → Option (Json F) → ToolResult F

pub record TranscriptToolCall (F : Type 0) : Type 0 where
  pub tool_call_id : String
  pub tool : ToolIdentity
  pub input : Json F
  pub result : ToolResult F

pub record TranscriptEntry (F : Type 0) : Type 0 where
  pub agent_id : String
  pub role : String
  pub input : String
  pub output : String
  pub decision : Option (AgentDecision F)
  pub tool_calls : Option (List (TranscriptToolCall F))
