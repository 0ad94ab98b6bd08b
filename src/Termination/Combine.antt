-- ===== src/Termination/Combine.antt =====
-- `combineTerminationDecisions` of src/runtime/termination.ts.
pub mod Best
use dogpile.Base.{ℕ, List, [], ◌∷◌, ltb, if◌then◌else◌}
use dogpile.Base.Result.{Result, ok, err}
use dogpile.Data.Condition.{
  StopDecision, TerminationDecision, NormalizedStopReason, continues, stops, budget_stop,
  convergence_stop, judge_stop,
}
use dogpile.Termination.Evaluate.{RangeError, range_error}

pub stop_precedence : NormalizedStopReason → ℕ
stop_precedence (budget_stop r) = 0
stop_precedence (judge_stop r) = 1
stop_precedence convergence_stop = 2

module _ {F : Type 0} where
  stop_decisions : List (TerminationDecision F) → List (StopDecision F)
  stop_decisions [] = []
  stop_decisions (continues c ∷ ds) = stop_decisions ds
  stop_decisions (stops d ∷ ds) = d ∷ stop_decisions ds

  -- The body of the `reduce`.
  prefer : StopDecision F → StopDecision F → StopDecision F
  prefer winner candidate =
      if ltb (stop_precedence candidate.normalized_reason)
        (stop_precedence winner.normalized_reason)
      then candidate
      else winner

  reduce : StopDecision F → List (StopDecision F) → StopDecision F
  unfolding prefer
  reduce winner [] = winner
  reduce winner (d ∷ ds) = reduce (prefer winner d) ds

  first_or_throw : List (TerminationDecision F) → Result RangeError (TerminationDecision F)
  first_or_throw [] =
      err (range_error "combineTerminationDecisions requires at least one decision.")
  first_or_throw (d ∷ ds) = ok d

  combine_stops :
      List (TerminationDecision F)
      → List (StopDecision F)
      → Result RangeError (TerminationDecision F)
  unfolding first_or_throw reduce
  combine_stops decisions [] = first_or_throw decisions
  combine_stops decisions (d ∷ ds) = ok (stops (reduce d ds))

  pub combine_termination_decisions :
      List (TerminationDecision F) → Result RangeError (TerminationDecision F)
  unfolding stop_decisions combine_stops
  combine_termination_decisions decisions = combine_stops decisions (stop_decisions decisions)
