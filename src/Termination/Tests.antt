-- ===== src/Termination/Tests.antt =====
-- Conditions at concrete runs.
use dogpile.Base.{
  inl, ltb, length, max, ◌||◌, ℕ, ◌≡◌, refl, ◌⊎◌, ◌↔◌, ◌<◌, [], ◌∷◌, map, Option, none, some, arith,
  false,
}
use dogpile.Base.Result.{ok}
use dogpile.Data.Json.{str}
use dogpile.Data.Agent.{sequential_config}
use dogpile.Data.Condition.{
  BudgetCondition, ConvergenceCondition, TerminationCondition, Conditions, TerminationStopRecord,
  children, nil, cons, tokens, BudgetStopReason,
}
use dogpile.Data.Context.{EvaluationContext}
use dogpile.Samples.{entry, context_of, whole_js, whole_js-HasRealMin}
use dogpile.Termination.Floor.{protocol_termination_floor, protocol_progress, is_floor_blocked}
use dogpile.Termination.Budget.{evaluate_budget}
use dogpile.Termination.Budget.Caps.{IsReached, reason_of, rank, evaluate_budget_iff}
use dogpile.Termination.Evaluate.{
  evaluate_termination, evaluate_first_of, evaluate_termination_stop,
}
use dogpile.Termination.Evaluate.Stop.{stop_of, leaves, is_continue, IsBudgetStop}
use dogpile.Termination.Evaluate.Flat.{first_stop, evaluate_termination-leaves}
use dogpile.Termination.Evaluate.FirstOf.{NoneStops, FirstStops, evaluate_first_of_cases}
use dogpile.Termination.Evaluate.Record.{IsRecordOf, evaluate_termination_stop_total}
use dogpile.Termination.Evaluate.BelowFloor.{evaluate_termination-below_floor}
use dogpile.Termination.Convergence.{evaluate_convergence}
use dogpile.Termination.Convergence.Stable.{
  AreComparable, any_dissimilar, evaluate_convergence-continues,
}
use dogpile.Termination.Warning.{
  misconfiguration_warning, protocol_min_turns, smallest_iteration_budget,
}
use dogpile.Termination.Warning.Stops.{misconfiguration_warning-stops}

abbrev two_turns : EvaluationContext ℕ
two_turns = context_of 5 120 (entry "a" "draft one" ∷ entry "b" "draft two" ∷ []) (some 9)

abbrev caps : BudgetCondition ℕ
caps = record {
  max_usd = some 10;
  max_tokens = some 100;
  max_iterations = some 2;
  timeout_ms = none;
}

abbrev quality_gate : TerminationCondition ℕ
quality_gate = TerminationCondition.judge (record { rubric = str "clear"; min_score = some 7 })

abbrev stable : TerminationCondition ℕ
stable = TerminationCondition.convergence (record { stable_turns = 2; min_similarity = 1 })

-- A `firstOf` in a `firstOf`.
abbrev inner : Conditions ℕ
inner = cons stable (cons (TerminationCondition.budget caps) nil)

abbrev nested : Conditions ℕ
nested = cons quality_gate (cons (TerminationCondition.first_of inner) nil)

evaluate_termination-leaves_example :
    stop_of (evaluate_termination (TerminationCondition.first_of nested) two_turns)
    ≡ first_stop (leaves (TerminationCondition.first_of nested)) two_turns
evaluate_termination-leaves_example =
    evaluate_termination-leaves (TerminationCondition.first_of nested) two_turns

evaluate_first_of_example :
    let ds = map (λ c. evaluate_termination c two_turns) (children nested) in
    NoneStops (TerminationCondition.first_of nested) ds (evaluate_first_of nested two_turns)
    ⊎ FirstStops ds (evaluate_first_of nested two_turns)
evaluate_first_of_example = evaluate_first_of_cases nested two_turns

evaluate_termination_stop_example :
    (r : Option (TerminationStopRecord ℕ)) × (evaluate_termination_stop
        (TerminationCondition.first_of nested)
        two_turns
      ≡ ok r)
    × IsRecordOf (TerminationCondition.first_of nested) two_turns r
evaluate_termination_stop_example =
    evaluate_termination_stop_total (TerminationCondition.first_of nested) two_turns

below_floor_example :
    IsBudgetStop (evaluate_termination (TerminationCondition.first_of nested) two_turns)
unfolding protocol_termination_floor protocol_progress
below_floor_example =
    evaluate_termination-below_floor two_turns (TerminationCondition.first_of nested) 3 refl
      (omega arith)

evaluate_budget_example : (reason_of (evaluate_budget caps two_turns) ≡ some tokens) ↔ (
    IsReached caps two_turns tokens
    × ((q : BudgetStopReason) → rank q < rank tokens → ¬ IsReached caps two_turns q))
evaluate_budget_example = evaluate_budget_iff caps two_turns tokens

misconfiguration_warning_example :
    (protocol_min_turns (sequential_config (record { max_turns = some 8; min_turns = some 3 }))
      ≡ some 3)
    × (2 < 3)
    × (is_continue (evaluate_termination (TerminationCondition.first_of nested) two_turns) ≡ false)
unfolding misconfiguration_warning smallest_iteration_budget
misconfiguration_warning_example =
    misconfiguration_warning-stops
      (sequential_config (record { max_turns = some 8; min_turns = some 3 }))
      (TerminationCondition.first_of nested) (record { min_turns = 3; max_iterations = 2 })
      two_turns refl (omega arith)

-- The token cap is the first that is reached; the quality gate waits for the floor.
tokens_stop :
    reason_of (evaluate_termination (TerminationCondition.first_of nested) two_turns) ≡ some tokens
unfolding evaluate_termination evaluate_budget is_floor_blocked
tokens_stop = refl

abbrev same_output : ConvergenceCondition ℕ
same_output = record { stable_turns = 2; min_similarity = 1 }

-- Three turns, the last two of which are the same but for blanks.
abbrev three_turns : EvaluationContext ℕ
three_turns = context_of 5 120 (entry "a" "one" ∷ entry "b" "two" ∷ entry "a" " two" ∷ []) (some 9)

two_similar : AreComparable (entry "b" "two" ∷ entry "a" " two" ∷ [])
unfolding AreComparable
two_similar = (ground arith, tt)

evaluate_convergence_example :
    is_continue (evaluate_convergence same_output three_turns)
    ≡ ltb (length three_turns.transcript) (max 1 2)
      || any_dissimilar 1 (entry "b" "two" ∷ entry "a" " two" ∷ [])
evaluate_convergence_example =
    evaluate_convergence-continues whole_js-HasRealMin same_output three_turns
      (entry "a" "one" ∷ []) (entry "b" "two" ∷ entry "a" " two" ∷ []) refl (inl refl) refl
      two_similar
