-- ===== src/Data/Model.antt =====
-- Model requests and responses, quality evaluation and health reports (src/types.ts). An abort
-- signal is a matter of the caller of the model and not part of a recorded request.
use dogpile.Base.{ℕ, String, List, Option}
use dogpile.Data.Json.{Json}

pub data MessageRole : Type 0 where
  system user assistant : MessageRole

pub record ModelMessage : Type 0 where
  pub role : MessageRole
  pub content : String

pub data FinishReason : Type 0 where
  stop length content_filter tool_calls error other : FinishReason

pub record ModelRequest (F : Type 0) : Type 0 where
  pub messages : List ModelMessage
  pub temperature : F
  pub metadata : Json F

pub record ToolExecutionRequest (F : Type 0) : Type 0 where
  pub tool_call_id : Option String
  pub tool_id : String
  pub input : Json F
  pub agent_id : Option String
  pub role : Option String
  pub turn : Option ℕ
  pub metadata : Option (Json F)

pub record ModelUsage : Type 0 where
  pub input_tokens : ℕ
  pub output_tokens : ℕ
  pub total_tokens : ℕ

pub record ModelResponse (F : Type 0) : Type 0 where
  pub text : String
  pub finish_reason : Option FinishReason
  pub tool_requests : Option (List (ToolExecutionRequest F))
  pub usage : Option ModelUsage
  pub cost_usd : Option F
  pub metadata : Option (Json F)

pub record RunEvaluation (F : Type 0) : Type 0 where
  pub quality : F
  pub rationale : Option String
  pub metadata : Option (Json F)

pub data AnomalyCode : Type 0 where
  runaway_turns budget_near_miss empty_contribution provider_error_recovered : AnomalyCode

pub data Severity : Type 0 where
  warning error : Severity

pub record HealthAnomaly (F : Type 0) : Type 0 where
  pub code : AnomalyCode
  pub severity : Severity
  pub value : F
  pub threshold : F
  pub agent_id : Option String

pub record RunHealthSummary (F : Type 0) : Type 0 where
  pub anomalies : List (HealthAnomaly F)
  pub total_turns : ℕ
  pub agent_count : ℕ
  pub budget_utilization_pct : Option F
