-- ===== src/Termination/Convergence.antt =====
-- `evaluateConvergence` of src/runtime/termination.ts.
pub mod Stable
use dogpile.Base.{
  ℕ, ◌-◌, List, [], ◌∷◌, none, some, String, Js, ltb, if◌then◌else◌, length, drop, max,
}
use dogpile.Data.Json.{Json, Items, num, str, arr, obj, end, field}
use dogpile.Data.Agent.{Protocol, TranscriptEntry}
use dogpile.Data.Condition.{
  ConvergenceCondition, TerminationCondition, TerminationDecision, continues, stops,
  convergence_reason, convergence_stop,
}
use dogpile.Data.Context.{EvaluationContext}
use dogpile.Termination.Similarity.{consecutive_similarities}

protocol_name : Protocol → String
protocol_name Protocol.coordinator = "coordinator"
protocol_name Protocol.sequential = "sequential"
protocol_name Protocol.broadcast = "broadcast"
protocol_name Protocol.shared = "shared"

module _ {F : Type 0} ⦃js : Js F⦄ where
  -- `Math.min` of the similarities; 1 where there is none.
  pub observed_similarity : List F → F
  observed_similarity [] = js.of_nat 1
  observed_similarity (s ∷ []) = s
  observed_similarity (s ∷ t ∷ ts) = js.min_of s (observed_similarity (t ∷ ts))

  outputs_json : List (TranscriptEntry F) → Items F
  outputs_json [] = Items.nil
  outputs_json (e ∷ es) = Items.cons (str e.output) (outputs_json es)

  convergence_detail : ConvergenceCondition F → Protocol → ℕ → F → List (TranscriptEntry F) → Json F
  unfolding outputs_json protocol_name
  convergence_detail c protocol stable_turns observed recent = obj (
      field "protocol" (str (protocol_name protocol)) (
        field "stableTurns" (num (js.of_nat stable_turns)) (
          field "minSimilarity" (num c.min_similarity) (
            field "observedSimilarity" (num observed)
              (field "outputs" (arr (outputs_json recent)) end)))))

  -- `transcript.slice(-n)` for a positive `n`.
  pub recent_entries : ℕ → List (TranscriptEntry F) → List (TranscriptEntry F)
  recent_entries n transcript = drop (length transcript - n) transcript

  pub evaluate_convergence : ConvergenceCondition F → EvaluationContext F → TerminationDecision F
  unfolding recent_entries observed_similarity
  evaluate_convergence c ctx =
      let stable_turns = max 1 c.stable_turns in
      let recent = recent_entries stable_turns ctx.transcript in
      let observed = observed_similarity (consecutive_similarities recent) in
      if ltb (length ctx.transcript) stable_turns
      then continues (TerminationCondition.convergence c)
      else if js.lt observed c.min_similarity
      then continues (TerminationCondition.convergence c)
      else stops (record {
        condition = TerminationCondition.convergence c;
        reason = convergence_reason;
        normalized_reason = convergence_stop;
        budget_reason = none;
        judge_reason = none;
        detail = some (convergence_detail c ctx.protocol stable_turns observed recent);
      })
