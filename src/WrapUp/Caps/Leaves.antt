-- ===== src/WrapUp/Caps/Leaves.antt =====
-- The merged caps stop a run exactly where one of the merged budget conditions does.
use dogpile.Base.{
  ℕ, Option, none, some, get_or, Js, HasMin, Bool, true, false, ◌&&◌, ◌≡◌, refl, sym, ◌∙◌, ap, ap₂,
  ltb, length, arith,
}
use dogpile.Data.Agent.{BudgetCaps}
use dogpile.Data.Condition.{BudgetCondition, TerminationCondition, Conditions, nil, cons}
use dogpile.Data.Context.{EvaluationContext}
use dogpile.Termination.Budget.{evaluate_budget}
use dogpile.Termination.Evaluate.Stop.{is_continue}
use dogpile.WrapUp.Caps.{
  min_cap, min_amount, merge_budget_caps, merge_two, budget_caps_from_termination, merge_children,
  effective_wrap_up_budget, effective_caps, caps_of, no_caps, condition_from_budget,
}

below_cap : ℕ → Option ℕ → Bool
below_cap observed none = true
below_cap observed (some limit) = ltb observed limit

below_cap-min :
    (n : ℕ) (a b : Option ℕ) → below_cap n (min_cap a b) ≡ below_cap n a && below_cap n b
unfolding below_cap min_cap
below_cap-min n none b = refl
below_cap-min n (some a) none = ground arith
below_cap-min n (some a) (some b) = ground arith

and_true : (b : Bool) → b && true ≡ b
and_true true = refl
and_true false = refl

and_assoc : (a b c : Bool) → (a && b) && c ≡ a && (b && c)
and_assoc true b c = refl
and_assoc false b c = refl

and_swap : (a b c d : Bool) → (a && b) && (c && d) ≡ (a && c) && (b && d)
and_swap true true c d = refl
and_swap true false true d = refl
and_swap true false false d = refl
and_swap false b c d = refl

module _ {F : Type 0} ⦃js : Js F⦄ where
  below_amount : F → Option F → Bool
  below_amount observed none = true
  below_amount observed (some limit) = js.lt observed limit

  below_amount-min :
      HasMin js
      → (x : F) (a b : Option F)
      → below_amount x (min_amount a b) ≡ below_amount x a && below_amount x b
  unfolding below_amount min_amount
  below_amount-min m x none b = refl
  below_amount-min m x (some a) none = sym (and_true (js.lt x a))
  below_amount-min m x (some a) (some b) = m.lt-min_of x a b

  -- All four readings are below their caps.
  within : EvaluationContext F → BudgetCondition F → Bool
  unfolding below_amount below_cap
  within ctx b =
      (below_amount ctx.cost.usd b.max_usd && below_cap ctx.cost.total_tokens b.max_tokens)
      && (below_cap (get_or ctx.iteration (length ctx.transcript)) b.max_iterations
          && below_cap (get_or ctx.elapsed_ms 0) b.timeout_ms)

  is_continue-evaluate_budget :
      (ctx : EvaluationContext F) (b : BudgetCondition F)
      → is_continue (evaluate_budget b ctx) ≡ within ctx b
  unfolding evaluate_budget within below_amount below_cap
  is_continue-evaluate_budget ctx b = ground arith

  within_merged :
      HasMin js
      → (ctx : EvaluationContext F) (a b : BudgetCaps F)
      → within ctx (condition_from_budget (merge_two a b))
        ≡ within ctx (condition_from_budget a) && within ctx (condition_from_budget b)
  unfolding within merge_two condition_from_budget
  within_merged m ctx a b =
      rw
        (
          below_amount-min m ctx.cost.usd a.max_usd b.max_usd,
          below_cap-min ctx.cost.total_tokens a.max_tokens b.max_tokens,
          below_cap-min (get_or ctx.iteration (length ctx.transcript)) a.max_iterations
              b.max_iterations,
          below_cap-min (get_or ctx.elapsed_ms 0) a.timeout_ms b.timeout_ms,
        )
        (simp and_swap)

  abbrev holds : Option (BudgetCaps F) → EvaluationContext F → Bool
  holds none ctx = true
  holds (some b) ctx = is_continue (evaluate_budget (condition_from_budget b) ctx)

  mutual
    -- Every budget condition of a tree lets the run go on.
    pub budgets_continue : TerminationCondition F → EvaluationContext F → Bool
    budgets_continue (TerminationCondition.budget b) ctx = is_continue (evaluate_budget b ctx)
    budgets_continue (TerminationCondition.convergence c) ctx = true
    budgets_continue (TerminationCondition.judge j) ctx = true
    budgets_continue (TerminationCondition.first_of cs) ctx = all_budgets_continue cs ctx

    all_budgets_continue : Conditions F → EvaluationContext F → Bool
    all_budgets_continue nil ctx = true
    all_budgets_continue (cons c cs) ctx = budgets_continue c ctx && all_budgets_continue cs ctx

  holds-merge :
      HasMin js
      → (ctx : EvaluationContext F) (a b : Option (BudgetCaps F))
      → holds (merge_budget_caps a b) ctx ≡ holds a ctx && holds b ctx
  unfolding merge_budget_caps
  holds-merge m ctx none b = refl
  holds-merge m ctx (some a) none = sym (and_true _)
  holds-merge m ctx (some a) (some b) =
      is_continue-evaluate_budget ctx _
      ∙ within_merged m ctx a b
      ∙ sym (ap₂ ◌&&◌ (is_continue-evaluate_budget ctx _) (is_continue-evaluate_budget ctx _))

  mutual
    unfolding budget_caps_from_termination budgets_continue condition_from_budget

    tree :
        HasMin js
        → (ctx : EvaluationContext F) (c : TerminationCondition F)
        → holds (budget_caps_from_termination c) ctx ≡ budgets_continue c ctx
    tree m ctx (TerminationCondition.budget b) = refl
    tree m ctx (TerminationCondition.convergence c) = refl
    tree m ctx (TerminationCondition.judge j) = refl
    tree m ctx (TerminationCondition.first_of cs) = forest m ctx cs none

    forest :
        HasMin js
        → (ctx : EvaluationContext F) (cs : Conditions F) (a : Option (BudgetCaps F))
        → holds (merge_children cs a) ctx ≡ holds a ctx && all_budgets_continue cs ctx
    forest m ctx nil a = sym (and_true (holds a ctx))
    forest m ctx (cons c cs) a =
        forest m ctx cs (merge_budget_caps a (budget_caps_from_termination c))
        ∙ ap (λ x. x && all_budgets_continue cs ctx)
            (holds-merge m ctx a (budget_caps_from_termination c)
              ∙ ap (λ x. holds a ctx && x) (tree m ctx c))
        ∙ and_assoc (holds a ctx) (budgets_continue c ctx) (all_budgets_continue cs ctx)

  holds-no_caps : (ctx : EvaluationContext F) → holds (some no_caps) ctx ≡ true
  unfolding no_caps condition_from_budget evaluate_budget
  holds-no_caps ctx = refl

  holds-effective :
      HasMin js
      → (ctx : EvaluationContext F) (a b : Option (BudgetCaps F))
      → holds (effective_caps a b) ctx ≡ holds a ctx && holds b ctx
  unfolding effective_caps merge_budget_caps
  holds-effective m ctx none none = refl
  holds-effective m ctx none (some b) =
      holds-merge m ctx (some no_caps) (some b)
      ∙ ap (λ x. x && holds (some b) ctx) (holds-no_caps ctx)
  holds-effective m ctx (some a) none =
      holds-merge m ctx (some a) (some no_caps)
      ∙ ap (λ x. holds (some a) ctx && x) (holds-no_caps ctx)
  holds-effective m ctx (some a) (some b) = holds-merge m ctx (some a) (some b)

  -- Where `Math.min` is that of the floats: the caps that the wrap-up hint counts down to, made into
  -- a budget condition as the engine does with its own, let a run go on exactly as long as the
  -- caller's budget and every budget condition in the termination tree do.
  pub effective_wrap_up_budget-continues :
      HasMin js
      → (budget : BudgetCaps F) (terminate : TerminationCondition F)
      → (caps : BudgetCaps F) (ctx : EvaluationContext F)
      → effective_wrap_up_budget (some budget) (some terminate) ≡ some caps
      → is_continue (evaluate_budget (condition_from_budget caps) ctx)
        ≡ is_continue (evaluate_budget (condition_from_budget budget) ctx)
          && budgets_continue terminate ctx
  unfolding effective_wrap_up_budget caps_of
  effective_wrap_up_budget-continues m budget terminate caps ctx e =
      ap (λ o. holds o ctx) (sym e)
      ∙ holds-effective m ctx (some budget) (budget_caps_from_termination terminate)
      ∙ ap (λ x. holds (some budget) ctx && x) (tree m ctx terminate)
