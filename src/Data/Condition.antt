-- ===== src/Data/Condition.antt =====
-- Termination conditions, decisions and stop records (src/types.ts).
use dogpile.Base.{ℕ, String, List, [], ◌∷◌, Option}
use dogpile.Data.Json.{Json}

pub record BudgetCondition (F : Type 0) : Type 0 where
  pub max_usd : Option F
  pub max_tokens : Option ℕ
  pub max_iterations : Option ℕ
  pub timeout_ms : Option ℕ

-- `stable_turns` is validated as a positive integer.
pub record ConvergenceCondition (F : Type 0) : Type 0 where
  pub stable_turns : ℕ
  pub min_similarity : F

pub record JudgeCondition (F : Type 0) : Type 0 where
  pub rubric : Json F
  pub min_score : Option F

-- The array under `firstOf`, a type of its own since it holds conditions again.
mutual
  pub data TerminationCondition (F : Type 0) : Type 0 where
    budget : BudgetCondition F → TerminationCondition F
    convergence : ConvergenceCondition F → TerminationCondition F
    judge : JudgeCondition F → TerminationCondition F
    first_of : Conditions F → TerminationCondition F

  pub data Conditions (F : Type 0) : Type 0 where
    nil : Conditions F
    cons : TerminationCondition F → Conditions F → Conditions F

-- The array as a list.
unfoldable pub children : {F : Type 0} → Conditions F → List (TerminationCondition F)
children nil = []
children (cons c cs) = c ∷ children cs

pub data BudgetStopReason : Type 0 where
  cost tokens iterations timeout : BudgetStopReason

pub data JudgeStopReason : Type 0 where
  accepted rejected score_threshold : JudgeStopReason

pub data StopReason : Type 0 where
  budget_reason convergence_reason judge_reason : StopReason

-- "budget:cost", "judge:accepted" and so on, by their two halves.
pub data NormalizedStopReason : Type 0 where
  budget_stop : BudgetStopReason → NormalizedStopReason
  convergence_stop : NormalizedStopReason
  judge_stop : JudgeStopReason → NormalizedStopReason

pub data JudgeVerdict : Type 0 where
  accept reject score : JudgeVerdict

-- The three decision types of the judge have the same optional properties.
pub record JudgeDecision (F : Type 0) : Type 0 where
  pub verdict : JudgeVerdict
  pub score_value : Option F
  pub rationale : Option String
  pub metadata : Option (Json F)

pub record StopDecision (F : Type 0) : Type 0 where
  pub condition : TerminationCondition F
  pub reason : StopReason
  pub normalized_reason : NormalizedStopReason
  pub budget_reason : Option BudgetStopReason
  pub judge_reason : Option JudgeStopReason
  pub detail : Option (Json F)

pub data TerminationDecision (F : Type 0) : Type 0 where
  continues : TerminationCondition F → TerminationDecision F
  stops : StopDecision F → TerminationDecision F

pub record FirstOfOutput (F : Type 0) : Type 0 where
  pub decision : TerminationDecision F
  pub winning_condition_index : Option ℕ
  pub evaluated : List (TerminationDecision F)

pub record FirstOfStopRecord (F : Type 0) : Type 0 where
  pub winning_condition_index : ℕ
  pub winning_condition : TerminationCondition F
  pub fired_condition : TerminationCondition F
  pub evaluated : List (TerminationDecision F)

pub record TerminationStopRecord (F : Type 0) : Type 0 where
  pub root_condition : TerminationCondition F
  pub fired_condition : TerminationCondition F
  pub reason : StopReason
  pub normalized_reason : NormalizedStopReason
  pub budget_reason : Option BudgetStopReason
  pub judge_reason : Option JudgeStopReason
  pub detail : Option (Json F)
  pub first_of : Option (FirstOfStopRecord F)
