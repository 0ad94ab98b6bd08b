-- ===== src/Data/Context.antt =====
-- What a termination condition is evaluated against (src/types.ts).
use dogpile.Base.{ℕ, String, List, Option}
use dogpile.Data.Json.{Json}
use dogpile.Data.Cost.{CostSummary}
use dogpile.Data.Agent.{Protocol, ProtocolConfig, BudgetTier, BudgetCaps, TranscriptEntry}
use dogpile.Data.Condition.{JudgeDecision}
use dogpile.Data.Trace.{RunEvent}

pub record RemainingBudget (F : Type 0) : Type 0 where
  pub iterations : Option ℕ
  pub timeout_ms : Option ℕ
  pub usd : Option F
  pub tokens : Option ℕ

pub record EvaluationContext (F : Type 0) : Type 0 where
  pub run_id : String
  pub protocol : Protocol
  pub protocol_config : Option ProtocolConfig
  pub tier : BudgetTier
  pub cost : CostSummary F
  pub events : List (RunEvent F)
  pub transcript : List (TranscriptEntry F)
  pub iteration : Option ℕ
  pub protocol_iteration : Option ℕ
  pub elapsed_ms : Option ℕ
  pub budget : Option (BudgetCaps F)
  pub remaining_budget : Option (RemainingBudget F)
  pub quality : Option F
  pub judge_decision : Option (JudgeDecision F)
  pub metadata : Option (Json F)
