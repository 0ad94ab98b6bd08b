-- ===== src/Termination/Warning/Stops.antt =====
-- What the start-up warning foretells.
use dogpile.Base.{
  ℕ, suc, ◌≤◌, ◌<◌, List, ◌∷◌, [], ◌++◌, Option, none, some, get_or, Js, ◌≡◌, refl, ◌⊎◌, inl, inr,
  arith, length, false, ltb, Bool-cases,
}
use dogpile.Data.Agent.{ProtocolConfig}
use dogpile.Data.Condition.{
  TerminationCondition, Conditions, BudgetCondition, TerminationDecision, FirstOfOutput, continues,
  stops, nil, cons,
}
use dogpile.Data.Context.{EvaluationContext}
use dogpile.Termination.Floor.{is_floor_blocked}
use dogpile.Termination.Budget.{evaluate_budget}
use dogpile.Termination.Evaluate.{evaluate_termination, evaluate_children, after_child}
use dogpile.Termination.Evaluate.Stop.{is_continue}
use dogpile.Termination.Warning.{
  Warning, misconfiguration_warning, smallest_iteration_budget, smallest_of_children,
  smaller_budget, protocol_min_turns, warning_for,
}

warning_parts :
    (floor limit : Option ℕ) (w : Warning)
    → warning_for floor limit ≡ some w
    → (floor ≡ some w.min_turns)
      × (limit ≡ some w.max_iterations)
      × (w.max_iterations < w.min_turns)
unfolding warning_for
warning_parts floor limit w e = ground arith

-- One of two budgets is at most `n` if the smaller one is.
smaller_budget_cases :
    (a b : Option ℕ) (k n : ℕ)
    → smaller_budget a b ≡ some k
    → k ≤ n
    → ((j : ℕ) × (a ≡ some j) × (j ≤ n)) ⊎ ((j : ℕ) × (b ≡ some j) × (j ≤ n))
unfolding smaller_budget
smaller_budget_cases none none k n e h = cc
smaller_budget_cases (some a) none k n e h = inl (k, e, h)
smaller_budget_cases none (some b) k n e h = inr (k, e, h)
smaller_budget_cases (some a) (some b) k n e h = elim (Bool-cases (ltb a b)) [
  | inl less ↦ inl (a, refl, ground arith)
  | inr more ↦ inr (b, refl, ground arith)
]

module _ {F : Type 0} ⦃js : Js F⦄ (ctx : EvaluationContext F) where
  abbrev iteration : ℕ
  iteration = get_or ctx.iteration (length ctx.transcript)

  budget_stops :
      (b : BudgetCondition F) (k : ℕ)
      → b.max_iterations ≡ some k
      → k ≤ iteration
      → is_continue (evaluate_budget b ctx) ≡ false
  unfolding evaluate_budget
  budget_stops b k e h = ground arith

  after_child_stops :
      (i : ℕ) (d : TerminationDecision F) (ev : List (TerminationDecision F))
      (out : FirstOfOutput F)
      → (is_continue d ≡ false) ⊎ (is_continue out.decision ≡ false)
      → is_continue (after_child i d ev out).decision ≡ false
  unfolding after_child
  after_child_stops i (continues c) ev out h = ground arith
  after_child_stops i (stops d) ev out h = refl

  mutual
    unfolding evaluate_termination smallest_iteration_budget is_floor_blocked

    tree :
        (c : TerminationCondition F) (k : ℕ)
        → smallest_iteration_budget c ≡ some k
        → k ≤ iteration
        → is_continue (evaluate_termination c ctx) ≡ false
    tree (TerminationCondition.budget b) k e h = budget_stops b k e h
    tree (TerminationCondition.convergence c) k e h = cc
    tree (TerminationCondition.judge j) k e h = cc
    tree (TerminationCondition.first_of cs) k e h =
        elim (forest cs none k e h (TerminationCondition.first_of cs) 0 []) [
          | inl (j, none_some, le) ↦ cc
          | inr s ↦ s
        ]

    forest :
        (cs : Conditions F) (acc : Option ℕ) (k : ℕ)
        → smallest_of_children cs acc ≡ some k
        → k ≤ iteration
        → (root : TerminationCondition F) (i : ℕ) (ev : List (TerminationDecision F))
        → ((j : ℕ) × (acc ≡ some j) × (j ≤ iteration))
          ⊎ (is_continue (evaluate_children cs root ctx i ev).decision ≡ false)
    forest nil acc k e h root i ev = inl (k, e, h)
    forest (cons c cs) acc k e h root i ev =
        let d = evaluate_termination c ctx in
        let ev' = ev ++ d ∷ [] in
        elim (forest cs (smaller_budget acc (smallest_iteration_budget c)) k e h root (suc i) ev') [
          | inl (j, f, le) ↦
              elim (smaller_budget_cases acc (smallest_iteration_budget c) j iteration f le) [
                | inl old ↦ inl old
                | inr (m, g, le') ↦ inr (
                    after_child_stops i d ev' (evaluate_children cs root ctx (suc i) ev')
                      (inl (tree c m g le')))
              ]
          | inr s ↦
              inr (after_child_stops i d ev' (evaluate_children cs root ctx (suc i) ev') (inr s))
        ]

module _ {F : Type 0} ⦃js : Js F⦄ where
  -- When the warning is given, its iteration cap lies below the protocol's minimum of turns, and in
  -- every context whose iteration has reached that cap, also below the minimum, the evaluation of the
  -- condition does not continue.
  pub misconfiguration_warning-stops :
      (protocol : ProtocolConfig) (terminate : TerminationCondition F) (w : Warning)
      (ctx : EvaluationContext F)
      → misconfiguration_warning protocol (some terminate) ≡ some w
      → w.max_iterations ≤ get_or ctx.iteration (length ctx.transcript)
      → (protocol_min_turns protocol ≡ some w.min_turns)
        × (w.max_iterations < w.min_turns)
        × (is_continue (evaluate_termination terminate ctx) ≡ false)
  unfolding misconfiguration_warning
  misconfiguration_warning-stops protocol terminate w ctx e h =
      let (floor, limit, below) = warning_parts _ _ w e in
      (floor, below, tree ctx terminate w.max_iterations limit h)
