-- ===== src/Termination/Evaluate.antt =====
-- `evaluateTermination`, `evaluateFirstOf` and `evaluateTerminationStop` of
-- src/runtime/termination.ts, and the constructor `firstOf`.
pub mod Stop
pub mod Flat
pub mod FirstOf
pub mod Record
pub mod BelowFloor
use dogpile.Base.{
  ℕ, suc, List, [], ◌∷◌, ◌++◌, Option, none, some, String, Js, if◌then◌else◌, get_elem?,
}
use dogpile.Base.Result.{Result, ok, err}
use dogpile.Data.Condition.{
  TerminationCondition, Conditions, children, StopDecision, TerminationDecision, FirstOfOutput,
  FirstOfStopRecord, TerminationStopRecord, continues, stops, nil, cons,
}
use dogpile.Data.Context.{EvaluationContext}
use dogpile.Termination.Floor.{is_floor_blocked}
use dogpile.Termination.Budget.{evaluate_budget}
use dogpile.Termination.Convergence.{evaluate_convergence}
use dogpile.Termination.Judge.{evaluate_judge}

pub data RangeError : Type 0 where
  range_error : String → RangeError

gather : {F : Type 0} → List (TerminationCondition F) → Conditions F
gather [] = nil
gather (c ∷ cs) = cons c (gather cs)

unfoldable pub first_of :
    {F : Type 0} → List (TerminationCondition F) → Result RangeError (TerminationCondition F)
unfolding gather
first_of [] = err (range_error "firstOf requires at least one termination condition.")
first_of (c ∷ cs) = ok (TerminationCondition.first_of (gather (c ∷ cs)))

module _ {F : Type 0} where
  -- One round of the loop of `evaluateFirstOf`: the decision on the child at `index`, and what the
  -- remaining rounds return.
  unfoldable pub after_child :
      ℕ → TerminationDecision F → List (TerminationDecision F) → FirstOfOutput F → FirstOfOutput F
  after_child index (continues c) evaluated rest = rest
  after_child index (stops d) evaluated rest = record {
    decision = stops d;
    winning_condition_index = some index;
    evaluated = evaluated;
  }

module _ {F : Type 0} ⦃js : Js F⦄ where
  unfoldable mutual
    unfolding after_child

    pub evaluate_termination : TerminationCondition F → EvaluationContext F → TerminationDecision F
    evaluate_termination (TerminationCondition.budget b) ctx =
        if is_floor_blocked (TerminationCondition.budget b) ctx
        then continues (TerminationCondition.budget b)
        else evaluate_budget b ctx
    evaluate_termination (TerminationCondition.convergence c) ctx =
        if is_floor_blocked (TerminationCondition.convergence c) ctx
        then continues (TerminationCondition.convergence c)
        else evaluate_convergence c ctx
    evaluate_termination (TerminationCondition.judge j) ctx =
        if is_floor_blocked (TerminationCondition.judge j) ctx
        then continues (TerminationCondition.judge j)
        else evaluate_judge j ctx
    evaluate_termination (TerminationCondition.first_of cs) ctx =
        if is_floor_blocked (TerminationCondition.first_of cs) ctx
        then continues (TerminationCondition.first_of cs)
        else (evaluate_children cs (TerminationCondition.first_of cs) ctx 0 []).decision

    -- The loop of `evaluateFirstOf` over the children from `index` on.
    pub evaluate_children :
        Conditions F
        → TerminationCondition F
        → EvaluationContext F
        → ℕ
        → List (TerminationDecision F)
        → FirstOfOutput F
    evaluate_children nil root ctx index evaluated = record {
      decision = continues root;
      winning_condition_index = none;
      evaluated = evaluated;
    }
    evaluate_children (cons c cs) root ctx index evaluated =
        let d = evaluate_termination c ctx in
        let rest = evaluate_children cs root ctx (suc index) (evaluated ++ d ∷ []) in
        after_child index d (evaluated ++ d ∷ []) rest

  unfoldable pub evaluate_first_of : Conditions F → EvaluationContext F → FirstOfOutput F
  evaluate_first_of cs ctx = evaluate_children cs (TerminationCondition.first_of cs) ctx 0 []

  stop_record :
      TerminationCondition F
      → StopDecision F
      → Option (FirstOfStopRecord F)
      → TerminationStopRecord F
  stop_record root d first = record {
    root_condition = root;
    fired_condition = d.condition;
    reason = d.reason;
    normalized_reason = d.normalized_reason;
    budget_reason = d.budget_reason;
    judge_reason = d.judge_reason;
    detail = d.detail;
    first_of = first;
  }

  -- The record of a decision on a condition that is no `firstOf`.
  plain_record :
      TerminationCondition F
      → TerminationDecision F
      → Result RangeError (Option (TerminationStopRecord F))
  unfolding stop_record
  plain_record root (continues c) = ok none
  plain_record root (stops d) = ok (some (stop_record root d none))

  -- The record of a `firstOf`, whose winning child is looked up by its index.
  winner_record :
      TerminationCondition F
      → StopDecision F
      → ℕ
      → List (TerminationDecision F)
      → Option (TerminationCondition F)
      → Result RangeError (Option (TerminationStopRecord F))
  unfolding stop_record
  winner_record root d index evaluated none =
      err (range_error "firstOf stop referenced a missing winning condition.")
  winner_record root d index evaluated (some winner) = ok (
      some (
        stop_record root d (
          some (record {
            winning_condition_index = index;
            winning_condition = winner;
            fired_condition = d.condition;
            evaluated = evaluated;
          }))))

  first_of_record :
      Conditions F
      → TerminationDecision F
      → Option ℕ
      → List (TerminationDecision F)
      → Result RangeError (Option (TerminationStopRecord F))
  unfolding winner_record
  first_of_record cs (continues c) index evaluated = ok none
  first_of_record cs (stops d) none evaluated = ok none
  first_of_record cs (stops d) (some index) evaluated =
      winner_record (TerminationCondition.first_of cs) d index evaluated
        (get_elem? (children cs) index)

  pub evaluate_termination_stop :
      TerminationCondition F
      → EvaluationContext F
      → Result RangeError (Option (TerminationStopRecord F))
  unfolding plain_record first_of_record
  evaluate_termination_stop (TerminationCondition.first_of cs) ctx =
      let output = evaluate_first_of cs ctx in
      first_of_record cs output.decision output.winning_condition_index output.evaluated
  evaluate_termination_stop c ctx = plain_record c (evaluate_termination c ctx)
