-- ===== src/WrapUp/Caps/Engine.antt =====
-- The hint's caps against the engine's own timeout and the iteration cap of the warning.
use dogpile.Base.{ℕ, Option, none, some, Js, ◌≡◌, refl, sym, ◌∙◌, ap}
use dogpile.Data.Agent.{BudgetCaps}
use dogpile.Data.Condition.{TerminationCondition, Conditions, nil, cons}
use dogpile.Termination.Warning.{smallest_iteration_budget, smallest_of_children, smaller_budget}
use dogpile.WrapUp.Caps.{
  min_cap, merge_budget_caps, merge_two, budget_caps_from_termination, merge_children,
  effective_wrap_up_budget, effective_caps, caps_of, no_caps, timeout_ms_from_termination,
  smallest_timeout, runtime_timeout_ms,
}

module _ {F : Type 0} where
  -- A cap of a budget that may be missing.
  abbrev pub timeout_of : Option (BudgetCaps F) → Option ℕ
  timeout_of none = none
  timeout_of (some b) = b.timeout_ms

  abbrev pub iterations_of : Option (BudgetCaps F) → Option ℕ
  iterations_of none = none
  iterations_of (some b) = b.max_iterations

min_cap-none : (cap : Option ℕ) → min_cap cap none ≡ cap
unfolding min_cap
min_cap-none none = refl
min_cap-none (some n) = refl

smaller_budget_lem : (a b : Option ℕ) → smaller_budget a b ≡ min_cap a b
unfolding smaller_budget min_cap
smaller_budget_lem none none = refl
smaller_budget_lem (some a) none = refl
smaller_budget_lem none (some b) = refl
smaller_budget_lem (some a) (some b) = refl

module _ {F : Type 0} ⦃js : Js F⦄ where
  timeout_of-merge :
      (a b : Option (BudgetCaps F))
      → timeout_of (merge_budget_caps a b) ≡ min_cap (timeout_of a) (timeout_of b)
  unfolding merge_budget_caps merge_two min_cap
  timeout_of-merge none b = refl
  timeout_of-merge (some a) none = sym (min_cap-none a.timeout_ms)
  timeout_of-merge (some a) (some b) = refl

  iterations_of-merge :
      (a b : Option (BudgetCaps F))
      → iterations_of (merge_budget_caps a b) ≡ min_cap (iterations_of a) (iterations_of b)
  unfolding merge_budget_caps merge_two min_cap
  iterations_of-merge none b = refl
  iterations_of-merge (some a) none = sym (min_cap-none a.max_iterations)
  iterations_of-merge (some a) (some b) = refl

  mutual
    unfolding budget_caps_from_termination timeout_ms_from_termination

    timeout_tree :
        (c : TerminationCondition F)
        → timeout_of (budget_caps_from_termination c) ≡ timeout_ms_from_termination c
    timeout_tree (TerminationCondition.budget b) = refl
    timeout_tree (TerminationCondition.convergence c) = refl
    timeout_tree (TerminationCondition.judge j) = refl
    timeout_tree (TerminationCondition.first_of cs) = timeout_forest cs none

    timeout_forest :
        (cs : Conditions F) (merged : Option (BudgetCaps F))
        → timeout_of (merge_children cs merged) ≡ smallest_timeout cs (timeout_of merged)
    timeout_forest nil merged = refl
    timeout_forest (cons c cs) merged =
        timeout_forest cs (merge_budget_caps merged (budget_caps_from_termination c))
        ∙ ap (smallest_timeout cs) (
            timeout_of-merge merged (budget_caps_from_termination c)
            ∙ ap (min_cap (timeout_of merged)) (timeout_tree c))

  mutual
    unfolding budget_caps_from_termination smallest_iteration_budget

    iterations_tree :
        (c : TerminationCondition F)
        → iterations_of (budget_caps_from_termination c) ≡ smallest_iteration_budget c
    iterations_tree (TerminationCondition.budget b) = refl
    iterations_tree (TerminationCondition.convergence c) = refl
    iterations_tree (TerminationCondition.judge j) = refl
    iterations_tree (TerminationCondition.first_of cs) = iterations_forest cs none

    iterations_forest :
        (cs : Conditions F) (merged : Option (BudgetCaps F))
        → iterations_of (merge_children cs merged) ≡ smallest_of_children cs (iterations_of merged)
    iterations_forest nil merged = refl
    iterations_forest (cons c cs) merged =
        iterations_forest cs (merge_budget_caps merged (budget_caps_from_termination c))
        ∙ ap (smallest_of_children cs) (
            iterations_of-merge merged (budget_caps_from_termination c)
            ∙ ap (min_cap (iterations_of merged)) (iterations_tree c)
            ∙ sym (smaller_budget_lem (iterations_of merged) (smallest_iteration_budget c)))

  -- The iteration cap that the misconfiguration warning compares with the minimum of turns is the
  -- one among the caps that the wrap-up hint reads off the same condition.
  pub smallest_iteration_budget_lem :
      (c : TerminationCondition F)
      → iterations_of (budget_caps_from_termination c) ≡ smallest_iteration_budget c
  smallest_iteration_budget_lem c = iterations_tree c

  timeout_of-effective :
      (a b : Option (BudgetCaps F))
      → timeout_of (effective_caps a b) ≡ min_cap (timeout_of a) (timeout_of b)
  unfolding effective_caps merge_two no_caps min_cap
  timeout_of-effective none none = refl
  timeout_of-effective (some a) none = refl
  timeout_of-effective none (some b) = refl
  timeout_of-effective (some a) (some b) = refl

  -- The time limit in the caps that the wrap-up hint counts down to is the timeout after which the
  -- engine aborts the run, for every budget and condition, given or not.
  pub runtime_timeout_ms_lem :
      (budget : Option (BudgetCaps F)) (terminate : Option (TerminationCondition F))
      → timeout_of (effective_wrap_up_budget budget terminate) ≡ runtime_timeout_ms budget terminate
  unfolding effective_wrap_up_budget runtime_timeout_ms caps_of min_cap
  runtime_timeout_ms_lem none none = timeout_of-effective none none
  runtime_timeout_ms_lem none (some t) =
      timeout_of-effective none (budget_caps_from_termination t) ∙ timeout_tree t
  runtime_timeout_ms_lem (some b) none =
      timeout_of-effective (some b) none ∙ min_cap-none b.timeout_ms
  runtime_timeout_ms_lem (some b) (some t) =
      timeout_of-effective (some b) (budget_caps_from_termination t)
      ∙ ap (min_cap b.timeout_ms) (timeout_tree t)
