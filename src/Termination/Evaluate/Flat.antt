-- ===== src/Termination/Evaluate/Flat.antt =====
-- A tree of conditions stops as its leaves do, asked one after the other.
use dogpile.Base.{ℕ, suc, List, [], ◌∷◌, ◌++◌, Option, none, some, Js, ◌≡◌, refl, sym, ◌∙◌, ap, ap₂}
use dogpile.Data.Condition.{
  TerminationCondition, Conditions, StopDecision, TerminationDecision, continues, stops, nil, cons,
}
use dogpile.Data.Context.{EvaluationContext}
use dogpile.Termination.Floor.{is_floor_blocked}
use dogpile.Termination.Evaluate.{evaluate_termination, evaluate_children, after_child}
use dogpile.Termination.Evaluate.Stop.{stop_of, or_else, leaves, all_leaves}

module _ {F : Type 0} ⦃js : Js F⦄ where
  pub first_stop : List (TerminationCondition F) → EvaluationContext F → Option (StopDecision F)
  first_stop [] ctx = none
  first_stop (c ∷ cs) ctx = or_else (stop_of (evaluate_termination c ctx)) (first_stop cs ctx)

  or_else-none : (o : Option (StopDecision F)) → or_else o none ≡ o
  or_else-none none = refl
  or_else-none (some d) = refl

  or_else_assoc :
      (o p q : Option (StopDecision F)) → or_else (or_else o p) q ≡ or_else o (or_else p q)
  or_else_assoc none p q = refl
  or_else_assoc (some d) p q = refl

  first_stop-append :
      (xs ys : List (TerminationCondition F)) (ctx : EvaluationContext F)
      → first_stop (xs ++ ys) ctx ≡ or_else (first_stop xs ctx) (first_stop ys ctx)
  unfolding first_stop
  first_stop-append [] ys ctx = refl
  first_stop-append (x ∷ xs) ys ctx =
      ap (or_else (stop_of (evaluate_termination x ctx))) (first_stop-append xs ys ctx)
      ∙ sym (or_else_assoc (stop_of (evaluate_termination x ctx)) _ _)

  stop_of-after_child :
      (i : ℕ) (d : TerminationDecision F) (ev : List (TerminationDecision F)) (rest : _)
      → stop_of (after_child i d ev rest).decision ≡ or_else (stop_of d) (stop_of rest.decision)
  unfolding after_child
  stop_of-after_child i (continues c) ev rest = refl
  stop_of-after_child i (stops d) ev rest = refl

  leaf :
      (c : TerminationCondition F) (ctx : EvaluationContext F)
      → leaves c ≡ c ∷ []
      → stop_of (evaluate_termination c ctx) ≡ first_stop (leaves c) ctx
  unfolding first_stop
  leaf c ctx e = rw e (sym (or_else-none _))

  mutual
    unfolding evaluate_termination leaves is_floor_blocked first_stop

    tree :
        (c : TerminationCondition F) (ctx : EvaluationContext F)
        → stop_of (evaluate_termination c ctx) ≡ first_stop (leaves c) ctx
    tree (TerminationCondition.budget b) ctx = leaf (TerminationCondition.budget b) ctx refl
    tree (TerminationCondition.convergence c) ctx =
        leaf (TerminationCondition.convergence c) ctx refl
    tree (TerminationCondition.judge j) ctx = leaf (TerminationCondition.judge j) ctx refl
    tree (TerminationCondition.first_of cs) ctx =
        forest cs (TerminationCondition.first_of cs) ctx 0 []

    forest :
        (cs : Conditions F) (root : TerminationCondition F) (ctx : EvaluationContext F) (i : ℕ)
        (ev : List (TerminationDecision F))
        → stop_of (evaluate_children cs root ctx i ev).decision ≡ first_stop (all_leaves cs) ctx
    forest nil root ctx i ev = refl
    forest (cons c cs) root ctx i ev =
        stop_of-after_child i (evaluate_termination c ctx) _ _
        ∙ ap₂ or_else (tree c ctx)
            (forest cs root ctx (suc i) (ev ++ evaluate_termination c ctx ∷ []))
        ∙ sym (first_stop-append (leaves c) (all_leaves cs) ctx)

  -- Evaluating a condition, however deeply `firstOf` is nested in it, gives the stop of the first of
  -- its leaves that stops by itself, and no stop exactly where no leaf stops.
  pub evaluate_termination-leaves :
      (c : TerminationCondition F) (ctx : EvaluationContext F)
      → stop_of (evaluate_termination c ctx) ≡ first_stop (leaves c) ctx
  evaluate_termination-leaves c ctx = tree c ctx
