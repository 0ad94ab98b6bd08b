-- ===== src/Termination/Budget.antt =====
-- `evaluateBudget` of src/runtime/termination.ts.
pub mod Caps
use dogpile.Base.{ℕ, Option, none, some, get_or, String, Js, ltb, if◌then◌else◌, length}
use dogpile.Data.Json.{num, str, obj, end, field}
use dogpile.Data.Condition.{
  BudgetCondition, TerminationCondition, BudgetStopReason, StopDecision, TerminationDecision,
  continues, stops, budget_reason, budget_stop, iterations, tokens, timeout,
}
use dogpile.Data.Context.{EvaluationContext}

module _ {F : Type 0} ⦃js : Js F⦄ where
  -- `stopIfReached`, with the cap, the reading and their test already looked up.
  stop_at_cap : BudgetCondition F → String → BudgetStopReason → F → F → StopDecision F
  stop_at_cap condition cap reason limit observed = record {
    condition = TerminationCondition.budget condition;
    reason = budget_reason;
    normalized_reason = budget_stop reason;
    budget_reason = some reason;
    judge_reason = none;
    detail = some (
        obj (
          field "cap" (str cap) (field "limit" (num limit) (field "observed" (num observed) end))));
  }

  stop_if_reached :
      BudgetCondition F → String → BudgetStopReason → Option F → F → Option (StopDecision F)
  unfolding stop_at_cap
  stop_if_reached condition cap reason none observed = none
  stop_if_reached condition cap reason (some limit) observed =
      if js.lt observed limit then none else some (stop_at_cap condition cap reason limit observed)

  -- The same for a cap and a reading that are whole numbers.
  stop_if_counted :
      BudgetCondition F → String → BudgetStopReason → Option ℕ → ℕ → Option (StopDecision F)
  unfolding stop_at_cap
  stop_if_counted condition cap reason none observed = none
  stop_if_counted condition cap reason (some limit) observed =
      if ltb observed limit
      then none
      else some (stop_at_cap condition cap reason (js.of_nat limit) (js.of_nat observed))

  -- The first stop, if any, in the order of the arguments.
  first_stop :
      TerminationCondition F
      → Option (StopDecision F)
      → TerminationDecision F
      → TerminationDecision F
  first_stop condition none next = next
  first_stop condition (some d) next = stops d

  unfoldable pub evaluate_budget : BudgetCondition F → EvaluationContext F → TerminationDecision F
  unfolding stop_if_reached stop_if_counted first_stop
  evaluate_budget b ctx =
      let c = TerminationCondition.budget b in
      let iteration = get_or ctx.iteration (length ctx.transcript) in
      let elapsed_ms = get_or ctx.elapsed_ms 0 in
      first_stop c (stop_if_reached b "maxUsd" BudgetStopReason.cost b.max_usd ctx.cost.usd) (
        first_stop c (stop_if_counted b "maxTokens" tokens b.max_tokens ctx.cost.total_tokens) (
          first_stop c (stop_if_counted b "maxIterations" iterations b.max_iterations iteration) (
            first_stop c (stop_if_counted b "timeoutMs" timeout b.timeout_ms elapsed_ms)
              (continues c))))
