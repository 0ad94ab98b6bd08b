-- ===== src/WrapUp/Caps.antt =====
-- The effective caps of a run (src/runtime/wrap-up.ts) and the engine's own readings of the same
-- conditions, `conditionFromBudget`, `runtimeTimeoutMs` and `timeoutMsFromTermination`
-- (src/runtime/engine.ts).
pub mod Leaves
pub mod Engine
use dogpile.Base.{ℕ, Option, none, some, Js, min}
use dogpile.Data.Agent.{BudgetCaps}
use dogpile.Data.Condition.{BudgetCondition, TerminationCondition, Conditions, nil, cons}

-- `minCap` and the `Math.min` of whole caps.
unfoldable pub min_cap : Option ℕ → Option ℕ → Option ℕ
min_cap none right = right
min_cap (some left) none = some left
min_cap (some left) (some right) = some (min left right)

module _ {F : Type 0} ⦃js : Js F⦄ where
  -- The same for a cap that is no whole number.
  unfoldable pub min_amount : Option F → Option F → Option F
  min_amount none right = right
  min_amount (some left) none = some left
  min_amount (some left) (some right) = some (js.min_of left right)

  unfoldable pub merge_two : BudgetCaps F → BudgetCaps F → BudgetCaps F
  unfolding min_cap min_amount
  merge_two left right = record {
    max_usd = min_amount left.max_usd right.max_usd;
    max_tokens = min_cap left.max_tokens right.max_tokens;
    max_iterations = min_cap left.max_iterations right.max_iterations;
    timeout_ms = min_cap left.timeout_ms right.timeout_ms;
    quality_weight = none;
  }

  unfoldable pub merge_budget_caps :
      Option (BudgetCaps F) → Option (BudgetCaps F) → Option (BudgetCaps F)
  unfolding merge_two
  merge_budget_caps none right = right
  merge_budget_caps (some left) none = some left
  merge_budget_caps (some left) (some right) = some (merge_two left right)

  unfoldable mutual
    unfolding merge_budget_caps

    pub budget_caps_from_termination : TerminationCondition F → Option (BudgetCaps F)
    budget_caps_from_termination (TerminationCondition.budget b) = some (record {
      max_usd = b.max_usd;
      max_tokens = b.max_tokens;
      max_iterations = b.max_iterations;
      timeout_ms = b.timeout_ms;
      quality_weight = none;
    })
    budget_caps_from_termination (TerminationCondition.convergence c) = none
    budget_caps_from_termination (TerminationCondition.judge j) = none
    budget_caps_from_termination (TerminationCondition.first_of cs) = merge_children cs none

    -- The loop over a `firstOf`.
    pub merge_children : Conditions F → Option (BudgetCaps F) → Option (BudgetCaps F)
    merge_children nil merged = merged
    merge_children (cons c cs) merged =
        merge_children cs (merge_budget_caps merged (budget_caps_from_termination c))

  unfoldable pub no_caps : BudgetCaps F
  no_caps = record {
    max_usd = none;
    max_tokens = none;
    max_iterations = none;
    timeout_ms = none;
    quality_weight = none;
  }

  -- `effectiveWrapUpBudget` on caps already read from the condition; a missing side has no caps.
  unfoldable pub effective_caps :
      Option (BudgetCaps F) → Option (BudgetCaps F) → Option (BudgetCaps F)
  unfolding merge_two no_caps
  effective_caps none none = none
  effective_caps none (some right) = some (merge_two no_caps right)
  effective_caps (some left) none = some (merge_two left no_caps)
  effective_caps (some left) (some right) = some (merge_two left right)

  unfoldable pub caps_of : Option (TerminationCondition F) → Option (BudgetCaps F)
  caps_of none = none
  caps_of (some c) = budget_caps_from_termination c

  unfoldable pub effective_wrap_up_budget :
      Option (BudgetCaps F) → Option (TerminationCondition F) → Option (BudgetCaps F)
  unfolding effective_caps caps_of
  effective_wrap_up_budget budget terminate = effective_caps budget (caps_of terminate)

module _ {F : Type 0} where
  unfoldable pub condition_from_budget : BudgetCaps F → BudgetCondition F
  condition_from_budget budget = record {
    max_usd = budget.max_usd;
    max_tokens = budget.max_tokens;
    max_iterations = budget.max_iterations;
    timeout_ms = budget.timeout_ms;
  }

  unfoldable mutual
    unfolding min_cap

    pub timeout_ms_from_termination : TerminationCondition F → Option ℕ
    timeout_ms_from_termination (TerminationCondition.budget b) = b.timeout_ms
    timeout_ms_from_termination (TerminationCondition.convergence c) = none
    timeout_ms_from_termination (TerminationCondition.judge j) = none
    timeout_ms_from_termination (TerminationCondition.first_of cs) = smallest_timeout cs none

    -- The `reduce` over a `firstOf`; its body is the minimum of the caps that are there.
    pub smallest_timeout : Conditions F → Option ℕ → Option ℕ
    smallest_timeout nil current = current
    smallest_timeout (cons c cs) current =
        smallest_timeout cs (min_cap current (timeout_ms_from_termination c))

  unfoldable pub runtime_timeout_ms :
      Option (BudgetCaps F) → Option (TerminationCondition F) → Option ℕ
  unfolding min_cap
  runtime_timeout_ms none none = none
  runtime_timeout_ms none (some terminate) = timeout_ms_from_termination terminate
  runtime_timeout_ms (some budget) none = budget.timeout_ms
  runtime_timeout_ms (some budget) (some terminate) =
      min_cap budget.timeout_ms (timeout_ms_from_termination terminate)
