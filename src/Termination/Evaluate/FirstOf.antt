-- ===== src/Termination/Evaluate/FirstOf.antt =====
-- What `evaluateFirstOf` returns, described from the decisions on all the children.
use dogpile.Base.{
  ℕ, suc, ◌+◌, List, [], ◌∷◌, ◌++◌, map, none, some, Js, ◌≡◌, refl, sym, ◌∙◌, ap, ◌⊎◌, inl, inr,
  arith, length, All, true,
}
use mathlib.Core.List.{append-nil, append_assoc}
use dogpile.Data.Condition.{
  TerminationCondition, Conditions, children, StopDecision, TerminationDecision, FirstOfOutput,
  continues, stops, nil, cons,
}
use dogpile.Data.Context.{EvaluationContext}
use dogpile.Termination.Evaluate.{
  evaluate_termination, evaluate_children, evaluate_first_of, after_child,
}
use dogpile.Termination.Evaluate.Stop.{is_continue}

module _ {F : Type 0} where
  abbrev pub AllContinue : List (TerminationDecision F) → Type 0
  AllContinue = All (λ d. is_continue d ≡ true)

  -- Every child continues, and the composite does.
  pub record NoneStops (root : TerminationCondition F) (ds : List (TerminationDecision F))
      (out : FirstOfOutput F) : Type 0 where
    pub all_continue : AllContinue ds
    pub decision : out.decision ≡ continues root
    pub index : out.winning_condition_index ≡ none
    pub evaluated : out.evaluated ≡ ds

  -- A child stops after children that continue; those behind it are not asked.
  pub record FirstStops (ds : List (TerminationDecision F)) (out : FirstOfOutput F) : Type 0 where
    pub before : List (TerminationDecision F)
    pub winner : StopDecision F
    pub after : List (TerminationDecision F)
    pub split : ds ≡ before ++ stops winner ∷ after
    pub all_continue : AllContinue before
    pub decision : out.decision ≡ stops winner
    pub index : out.winning_condition_index ≡ some (length before)
    pub evaluated : out.evaluated ≡ before ++ stops winner ∷ []

module _ {F : Type 0} ⦃js : Js F⦄ (root : TerminationCondition F) (ctx : EvaluationContext F) where
  abbrev decisions : Conditions F → List (TerminationDecision F)
  decisions cs = map (λ c. evaluate_termination c ctx) (children cs)

  -- The same two cases for a loop that has already asked the children `ev`.
  abbrev Loop : Conditions F → List (TerminationDecision F) → ℕ → FirstOfOutput F → Type 0
  Loop cs ev i out =
      (AllContinue (decisions cs)
        × (out.decision ≡ continues root)
        × (out.winning_condition_index ≡ none)
        × (out.evaluated ≡ ev ++ decisions cs))
      ⊎ ((before : List (TerminationDecision F)) × (d : StopDecision F) × (after : List
            (TerminationDecision F))
          × (decisions cs ≡ before ++ stops d ∷ after)
          × AllContinue before
          × (out.decision ≡ stops d)
          × (out.winning_condition_index ≡ some (i + length before))
          × (out.evaluated ≡ ev ++ (before ++ stops d ∷ [])))

  step :
      (c : TerminationCondition F) (cs : Conditions F) (ev : List (TerminationDecision F)) (i : ℕ)
      (d : TerminationDecision F) (out : FirstOfOutput F)
      → evaluate_termination c ctx ≡ d
      → Loop cs (ev ++ d ∷ []) (suc i) out
      → Loop (cons c cs) ev i (after_child i d (ev ++ d ∷ []) out)
  unfolding children after_child
  step c cs ev i (stops w) out e rest =
      inr ([], w, decisions cs, rw e, tt, refl, ap some (omega arith), refl)
  step c cs ev i (continues x) out e (inl (a, p, q, r)) = inl (
    (rw e refl, a),
    p,
    q,
    r ∙ append_assoc ev (continues x ∷ []) _ ∙ ap (λ y. ev ++ y ∷ decisions cs) (sym e),
  )
  step c cs ev i (continues x) out e (inr (b, w, a, s, h, p, q, r)) = inr (
    continues x ∷ b,
    w,
    a,
    rw (e, s),
    (refl, h),
    p,
    q ∙ ap some (omega arith),
    r ∙ append_assoc ev (continues x ∷ []) _,
  )

  loop :
      (cs : Conditions F) (ev : List (TerminationDecision F)) (i : ℕ)
      → Loop cs ev i (evaluate_children cs root ctx i ev)
  unfolding evaluate_children children
  loop nil ev i = inl (tt, refl, refl, sym (append-nil ev))
  loop (cons c cs) ev i =
      let d = evaluate_termination c ctx in step c cs ev i d _ refl (loop cs (ev ++ d ∷ []) (suc i))

module _ {F : Type 0} ⦃js : Js F⦄ where
  described :
      (root : TerminationCondition F) (ctx : EvaluationContext F) (cs : Conditions F)
      (out : FirstOfOutput F)
      → Loop root ctx cs [] 0 out
      → NoneStops root (decisions root ctx cs) out ⊎ FirstStops (decisions root ctx cs) out
  described root ctx cs out (inl (a, p, q, r)) =
      inl (record { all_continue = a; decision = p; index = q; evaluated = r })
  described root ctx cs out (inr (b, w, a, s, h, p, q, r)) = inr (record {
    before = b;
    winner = w;
    after = a;
    split = s;
    all_continue = h;
    decision = p;
    index = q ∙ ap some (omega arith);
    evaluated = r;
  })

  -- `evaluateFirstOf` either finds that every child continues, returns no index, all the decisions and
  -- `continue`; or it returns the decision of the first child that stops, that child's index, and
  -- the decisions up to that child only.
  pub evaluate_first_of_cases :
      (cs : Conditions F) (ctx : EvaluationContext F)
      → let ds = map (λ c. evaluate_termination c ctx) (children cs) in
        NoneStops (TerminationCondition.first_of cs) ds (evaluate_first_of cs ctx)
        ⊎ FirstStops ds (evaluate_first_of cs ctx)
  unfolding evaluate_first_of
  evaluate_first_of_cases cs ctx =
      let root = TerminationCondition.first_of cs in described root ctx cs _ (loop root ctx cs [] 0)
