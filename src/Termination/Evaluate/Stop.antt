-- ===== src/Termination/Evaluate/Stop.antt =====
-- The stop that a decision carries, and the leaves of a condition.
use dogpile.Base.{List, [], ◌∷◌, ◌++◌, Option, none, some, Bool, true, false, ◌≡◌}
use dogpile.Data.Condition.{
  TerminationCondition, Conditions, StopDecision, TerminationDecision, continues, stops, nil, cons,
  budget_reason,
}

module _ {F : Type 0} where
  abbrev pub stop_of : TerminationDecision F → Option (StopDecision F)
  stop_of (continues c) = none
  stop_of (stops d) = some d

  abbrev pub or_else : Option (StopDecision F) → Option (StopDecision F) → Option (StopDecision F)
  or_else none o = o
  or_else (some d) o = some d

  abbrev pub is_continue : TerminationDecision F → Bool
  is_continue (continues c) = true
  is_continue (stops d) = false

  abbrev pub IsBudgetStop : TerminationDecision F → Type 0
  IsBudgetStop (continues c) = Unit {0}
  IsBudgetStop (stops d) = d.reason ≡ budget_reason

  unfoldable mutual
    -- The conditions of a tree that are no `firstOf`, in the order in which the caller wrote them.
    pub leaves : TerminationCondition F → List (TerminationCondition F)
    leaves (TerminationCondition.budget b) = TerminationCondition.budget b ∷ []
    leaves (TerminationCondition.convergence c) = TerminationCondition.convergence c ∷ []
    leaves (TerminationCondition.judge j) = TerminationCondition.judge j ∷ []
    leaves (TerminationCondition.first_of cs) = all_leaves cs

    pub all_leaves : Conditions F → List (TerminationCondition F)
    all_leaves nil = []
    all_leaves (cons c cs) = leaves c ++ all_leaves cs
