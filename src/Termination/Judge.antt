-- ===== src/Termination/Judge.antt =====
-- `evaluateJudge` of src/runtime/termination.ts.
use mathlib.Core.Option
use dogpile.Base.{Bool, false, Option, none, some, String, Js, if◌then◌else◌}
use dogpile.Data.Json.{Json, Fields, num, str, obj, end, field}
use dogpile.Data.Condition.{
  JudgeCondition, TerminationCondition, JudgeStopReason, JudgeVerdict, JudgeDecision,
  TerminationDecision, continues, stops, judge_reason, judge_stop, accept, reject, score, accepted,
  rejected, score_threshold,
}
use dogpile.Data.Context.{EvaluationContext}

verdict_name : JudgeVerdict → String
verdict_name accept = "accept"
verdict_name reject = "reject"
verdict_name score = "score"

module _ {F : Type 0} ⦃js : Js F⦄ where
  -- An optional property of an object literal.
  optional_field : String → Option (Json F) → Fields F → Fields F
  optional_field key none rest = rest
  optional_field key (some v) rest = field key v rest

  judge_stop_detail : JudgeDecision F → Option F → Json F
  unfolding optional_field verdict_name
  judge_stop_detail d min_score = obj (
      field "decision" (str (verdict_name d.verdict)) (
        optional_field "score" (Option.map num d.score_value) (
          optional_field "minScore" (Option.map num min_score) (
            optional_field "rationale" (Option.map str d.rationale)
              (optional_field "metadata" d.metadata end)))))

  judged : JudgeCondition F → JudgeStopReason → JudgeDecision F → Option F → TerminationDecision F
  unfolding judge_stop_detail
  judged j reason decision min_score = stops (record {
    condition = TerminationCondition.judge j;
    reason = judge_reason;
    normalized_reason = judge_stop reason;
    budget_reason = none;
    judge_reason = some reason;
    detail = some (judge_stop_detail decision min_score);
  })

  score_decision_from_quality : Option F → Option (JudgeDecision F)
  score_decision_from_quality none = none
  score_decision_from_quality (some quality) =
      some
        (record { verdict = score; score_value = some quality; rationale = none; metadata = none })

  -- `decision.score < minScore`; a score verdict always has a score.
  pub misses_score : Option F → Option F → Bool
  misses_score (some s) (some m) = js.lt s m
  misses_score (some s) none = false
  misses_score none m = false

  judge_by_verdict : JudgeCondition F → JudgeVerdict → JudgeDecision F → TerminationDecision F
  unfolding judged misses_score
  judge_by_verdict j accept d = judged j accepted d none
  judge_by_verdict j reject d = judged j rejected d none
  judge_by_verdict j score d =
      if misses_score d.score_value j.min_score
      then continues (TerminationCondition.judge j)
      else judged j score_threshold d j.min_score

  judge_decision : EvaluationContext F → Option (JudgeDecision F)
  unfolding score_decision_from_quality
  judge_decision ctx = elim ctx.judge_decision [
    | none ↦ score_decision_from_quality ctx.quality
    | some d ↦ some d
  ]

  pub evaluate_judge : JudgeCondition F → EvaluationContext F → TerminationDecision F
  unfolding judge_by_verdict judge_decision
  evaluate_judge j ctx = elim (judge_decision ctx) [
    | none ↦ continues (TerminationCondition.judge j)
    | some d ↦ judge_by_verdict j d.verdict d
  ]
