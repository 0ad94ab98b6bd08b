-- ===== src/Termination/Budget/Caps.antt =====
-- Which cap stops a run under a budget condition.
use dogpile.Base.{
  ℕ, ◌≤◌, ◌<◌, Option, none, some, get_or, Js, ◌≡◌, refl, ◌↔◌, inl, inr, arith, Bool, true, false,
  length, ltb, Bool-cases, if◌then◌else◌,
}
use dogpile.Data.Condition.{
  BudgetCondition, BudgetStopReason, TerminationDecision, continues, stops, cost, tokens,
  iterations, timeout,
}
use dogpile.Data.Context.{EvaluationContext}
use dogpile.Termination.Budget.{evaluate_budget}
use dogpile.Termination.Evaluate.Stop.{IsBudgetStop}

abbrev reached_count : Option ℕ → ℕ → Bool
reached_count none observed = false
reached_count (some limit) observed = if ltb observed limit then false else true

abbrev IsCountReached : Option ℕ → ℕ → Type 0
IsCountReached cap observed = (limit : ℕ) × (cap ≡ some limit) × (limit ≤ observed)

reached_count_iff :
    (cap : Option ℕ) (observed : ℕ)
    → (reached_count cap observed ≡ true) ↔ IsCountReached cap observed
reached_count_iff none observed = (λ h. cc, λ (limit, e, h). cc)
reached_count_iff (some limit) observed =
    (λ h. (limit, refl, ground arith), λ (l, e, h). ground arith)

true_ne_false : {b : Bool} → b ≡ true → b ≡ false → ⊥
true_ne_false e f = cc

-- The order in which the caps are looked at.
abbrev pub rank : BudgetStopReason → ℕ
rank cost = 0
rank tokens = 1
rank iterations = 2
rank timeout = 3

module _ {F : Type 0} where
  -- The budget reason that a decision carries.
  abbrev pub reason_of : TerminationDecision F → Option BudgetStopReason
  reason_of (continues c) = none
  reason_of (stops d) = d.budget_reason

module _ {F : Type 0} ⦃js : Js F⦄ where
  abbrev reached_amount : Option F → F → Bool
  reached_amount none observed = false
  reached_amount (some limit) observed = if js.lt observed limit then false else true

  -- The caps whose reading is not below the limit.
  abbrev pub reached : BudgetCondition F → EvaluationContext F → BudgetStopReason → Bool
  reached b ctx cost = reached_amount b.max_usd ctx.cost.usd
  reached b ctx tokens = reached_count b.max_tokens ctx.cost.total_tokens
  reached b ctx iterations =
      reached_count b.max_iterations (get_or ctx.iteration (length ctx.transcript))
  reached b ctx timeout = reached_count b.timeout_ms (get_or ctx.elapsed_ms 0)

  pub evaluate_budget-IsBudgetStop :
      (b : BudgetCondition F) (ctx : EvaluationContext F) → IsBudgetStop (evaluate_budget b ctx)
  unfolding evaluate_budget
  evaluate_budget-IsBudgetStop b ctx = ground arith

  abbrev pub first_reached : BudgetCondition F → EvaluationContext F → Option BudgetStopReason
  first_reached b ctx =
      if reached b ctx cost
      then some cost
      else if reached b ctx tokens
      then some tokens
      else if reached b ctx iterations
      then some iterations
      else if reached b ctx timeout
      then some timeout
      else none

  first_reached_lem :
      (b : BudgetCondition F) (ctx : EvaluationContext F)
      → reason_of (evaluate_budget b ctx) ≡ first_reached b ctx
  unfolding evaluate_budget
  first_reached_lem b ctx = ground arith

  -- A cap is configured and its reading is not below it.
  abbrev pub IsReached : BudgetCondition F → EvaluationContext F → BudgetStopReason → Type 0
  IsReached b ctx cost = (limit : F) × (b.max_usd ≡ some limit) × (js.lt ctx.cost.usd limit ≡ false)
  IsReached b ctx tokens = IsCountReached b.max_tokens ctx.cost.total_tokens
  IsReached b ctx iterations =
      IsCountReached b.max_iterations (get_or ctx.iteration (length ctx.transcript))
  IsReached b ctx timeout = IsCountReached b.timeout_ms (get_or ctx.elapsed_ms 0)

  reached_amount_iff :
      (cap : Option F) (observed : F)
      → (reached_amount cap observed ≡ true)
        ↔ ((limit : F) × (cap ≡ some limit) × (js.lt observed limit ≡ false))
  reached_amount_iff none observed = (λ h. cc, λ (limit, e, h). cc)
  reached_amount_iff (some limit) observed =
      (λ h. (limit, refl, ground arith), λ (l, e, h). ground arith)

  reached_iff :
      (b : BudgetCondition F) (ctx : EvaluationContext F) (r : BudgetStopReason)
      → (reached b ctx r ≡ true) ↔ IsReached b ctx r
  reached_iff b ctx cost = reached_amount_iff b.max_usd ctx.cost.usd
  reached_iff b ctx tokens = reached_count_iff b.max_tokens _
  reached_iff b ctx iterations = reached_count_iff b.max_iterations _
  reached_iff b ctx timeout = reached_count_iff b.timeout_ms _

  earlier :
      (b : BudgetCondition F) (ctx : EvaluationContext F) (r q : BudgetStopReason)
      → first_reached b ctx ≡ some r
      → rank q < rank r
      → reached b ctx q ≡ false
  earlier b ctx r cost e h = ground arith
  earlier b ctx r tokens e h = ground arith
  earlier b ctx r iterations e h = ground arith
  earlier b ctx r timeout e h = ground arith

  first_reached_iff :
      (b : BudgetCondition F) (ctx : EvaluationContext F) (r : BudgetStopReason)
      → (first_reached b ctx ≡ some r) ↔ (
          (reached b ctx r ≡ true)
          × ((q : BudgetStopReason) → rank q < rank r → reached b ctx q ≡ false))
  first_reached_iff b ctx cost = (λ e. (ground arith, λ q h. absurd (omega arith)), ground arith)
  first_reached_iff b ctx tokens = (
    λ e. (ground arith, λ q h. earlier b ctx tokens q e h),
    λ (h, before). ground (arith, before cost),
  )
  first_reached_iff b ctx iterations = (
    λ e. (ground arith, λ q h. earlier b ctx iterations q e h),
    λ (h, before). ground (arith, before cost, before tokens),
  )
  first_reached_iff b ctx timeout = (
    λ e. (ground arith, λ q h. earlier b ctx timeout q e h),
    λ (h, before). ground (arith, before cost, before tokens, before iterations),
  )

  not_reached :
      (b : BudgetCondition F) (ctx : EvaluationContext F) (q : BudgetStopReason)
      → ¬ IsReached b ctx q
      → reached b ctx q ≡ false
  not_reached b ctx q h = elim (Bool-cases (reached b ctx q)) [
    | inl e ↦ absurd (h ((reached_iff b ctx q).0 e))
    | inr e ↦ e
  ]

  -- A budget condition stops for a reason exactly when that reason's cap is reached and no cap before
  -- it, in the order cost, tokens, iterations, timeout, is reached.
  pub evaluate_budget_iff :
      (b : BudgetCondition F) (ctx : EvaluationContext F) (r : BudgetStopReason)
      → (reason_of (evaluate_budget b ctx) ≡ some r)
        ↔ (IsReached b ctx r × ((q : BudgetStopReason) → rank q < rank r → ¬ IsReached b ctx q))
  evaluate_budget_iff b ctx r =
      let (to, from) = first_reached_iff b ctx r in
      rw (first_reached_lem b ctx) (
        λ e. (
          (reached_iff b ctx r).0 (to e).0,
          λ q h c. true_ne_false ((reached_iff b ctx q).1 c) ((to e).1 q h),
        ),
        λ (c, earlier). from ((reached_iff b ctx r).1 c, λ q h. not_reached b ctx q (earlier q h)),
      )
