-- ===== src/Termination/Evaluate/BelowFloor.antt =====
-- What the protocol floor holds back.
use dogpile.Base.{ℕ, suc, ◌<◌, List, [], ◌∷◌, ◌++◌, some, Js, ◌≡◌, arith, true}
use dogpile.Data.Condition.{TerminationCondition, Conditions, nil, cons}
use dogpile.Data.Context.{EvaluationContext}
use dogpile.Termination.Floor.{
  is_floor_blocked, protocol_termination_floor, protocol_progress, below_floor,
}
use dogpile.Termination.Budget.Caps.{evaluate_budget-IsBudgetStop}
use dogpile.Termination.Evaluate.{evaluate_termination, evaluate_children, after_child}
use dogpile.Termination.Evaluate.Stop.{IsBudgetStop}

below_floor_lem : (floor progress : ℕ) → progress < floor → below_floor (some floor) progress ≡ true
unfolding below_floor
below_floor_lem floor progress h = ground arith

module _ {F : Type 0} ⦃js : Js F⦄ (ctx : EvaluationContext F) where
  mutual
    unfolding evaluate_termination is_floor_blocked after_child

    held :
        (c : TerminationCondition F)
        → below_floor (protocol_termination_floor ctx.protocol_config) (protocol_progress ctx)
          ≡ true
        → IsBudgetStop (evaluate_termination c ctx)
    held (TerminationCondition.budget b) h = evaluate_budget-IsBudgetStop b ctx
    held (TerminationCondition.convergence c) h = rw h tt
    held (TerminationCondition.judge j) h = rw h tt
    held (TerminationCondition.first_of cs) h =
        all_held cs (TerminationCondition.first_of cs) 0 [] h

    all_held :
        (cs : Conditions F) (root : TerminationCondition F) (i : ℕ) (ev : List _)
        → below_floor (protocol_termination_floor ctx.protocol_config) (protocol_progress ctx)
          ≡ true
        → IsBudgetStop (evaluate_children cs root ctx i ev).decision
    all_held nil root i ev h = tt
    all_held (cons c cs) root i ev h =
        ground (arith, held c h, all_held cs root (suc i) (ev ++ evaluate_termination c ctx ∷ []) h)

module _ {F : Type 0} ⦃js : Js F⦄ where
  -- While the protocol's progress is below its floor, a condition stops for a budget cap or not at
  -- all: no convergence or judge condition in it fires, however deeply nested.
  pub evaluate_termination-below_floor :
      (ctx : EvaluationContext F) (c : TerminationCondition F) (floor : ℕ)
      → protocol_termination_floor ctx.protocol_config ≡ some floor
      → protocol_progress ctx < floor
      → IsBudgetStop (evaluate_termination c ctx)
  evaluate_termination-below_floor ctx c floor e h =
      held ctx c (rw e (below_floor_lem floor (protocol_progress ctx) h))
