-- ===== src/Termination/Evaluate/Record.antt =====
-- The stop record of `evaluateTerminationStop` against the decision of `evaluateTermination`.
use dogpile.Base.{
  List, [], ◌∷◌, ◌++◌, map, Option, none, some, Js, ◌≡◌, refl, ◌⊎◌, inl, inr, length, get_elem?,
}
use dogpile.Base.Result.{ok}
use dogpile.Data.Condition.{
  TerminationCondition, Conditions, children, StopDecision, TerminationDecision, FirstOfStopRecord,
  TerminationStopRecord, continues, stops,
}
use dogpile.Data.Context.{EvaluationContext}
use dogpile.Termination.Floor.{is_floor_blocked}
use dogpile.Termination.Evaluate.{
  evaluate_termination, evaluate_first_of, evaluate_termination_stop, first_of_record,
  winner_record, plain_record, stop_record,
}
use dogpile.Termination.Evaluate.Stop.{stop_of}
use dogpile.Termination.Evaluate.FirstOf.{NoneStops, FirstStops, evaluate_first_of_cases}

-- The element behind an entry of a mapped list.
source_of {ℓ κ} :
    {A : Type ℓ} {B : Type κ} (f : A → B) (xs : List A) (ys : List B) (z : B) (zs : List B)
    → map f xs ≡ ys ++ z ∷ zs
    → (x : A) × (get_elem? xs (length ys) ≡ some x) × (f x ≡ z)
source_of f [] [] z zs e = cc
source_of f [] (y ∷ ys) z zs e = cc
source_of f (x ∷ xs) [] z zs e = (x, refl, cc)
source_of f (x ∷ xs) (y ∷ ys) z zs e = source_of f xs ys z zs (cc)

module _ {F : Type 0} where
  -- The decision that a record was made from.
  abbrev pub decision_of : TerminationStopRecord F → StopDecision F
  decision_of r = record {
    condition = r.fired_condition;
    reason = r.reason;
    normalized_reason = r.normalized_reason;
    budget_reason = r.budget_reason;
    judge_reason = r.judge_reason;
    detail = r.detail;
  }

module _ {F : Type 0} ⦃js : Js F⦄ where
  -- A `firstOf` record names a child, by its index, that stops by itself with the decision `d`.
  abbrev pub NamesWinner :
      TerminationCondition F
      → EvaluationContext F
      → StopDecision F
      → Option (FirstOfStopRecord F)
      → Type 0
  NamesWinner (TerminationCondition.first_of cs) ctx d none = ⊥
  NamesWinner (TerminationCondition.first_of cs) ctx d (some f) =
      (get_elem? (children cs) f.winning_condition_index ≡ some f.winning_condition)
      × (evaluate_termination f.winning_condition ctx ≡ stops d)
      × (f.fired_condition ≡ d.condition)
  NamesWinner _ ctx d first = first ≡ none

  abbrev pub IsRecordOf :
      TerminationCondition F → EvaluationContext F → Option (TerminationStopRecord F) → Type 0
  IsRecordOf c ctx none = stop_of (evaluate_termination c ctx) ≡ none
  IsRecordOf c ctx (some r) =
      (stop_of (evaluate_termination c ctx) ≡ some (decision_of r))
      × (r.root_condition ≡ c)
      × NamesWinner c ctx (decision_of r) r.first_of

  abbrev Recorded : TerminationCondition F → EvaluationContext F → Type 0
  Recorded c ctx =
      (r : Option (TerminationStopRecord F)) × (evaluate_termination_stop c ctx ≡ ok r)
      × IsRecordOf c ctx r

  first_of_decision :
      (cs : Conditions F) (ctx : EvaluationContext F)
      → evaluate_termination (TerminationCondition.first_of cs) ctx
        ≡ (evaluate_first_of cs ctx).decision
  unfolding evaluate_termination is_floor_blocked evaluate_first_of
  first_of_decision cs ctx = refl

  first_of_stop :
      (cs : Conditions F) (ctx : EvaluationContext F)
      → let out = evaluate_first_of cs ctx in
        evaluate_termination_stop (TerminationCondition.first_of cs) ctx
        ≡ first_of_record cs out.decision out.winning_condition_index out.evaluated
  unfolding evaluate_termination_stop
  first_of_stop cs ctx = refl

  of_first_of :
      (cs : Conditions F) (ctx : EvaluationContext F)
      → (let ds = map (λ c. evaluate_termination c ctx) (children cs) in
          NoneStops (TerminationCondition.first_of cs) ds (evaluate_first_of cs ctx)
          ⊎ FirstStops ds (evaluate_first_of cs ctx))
      → Recorded (TerminationCondition.first_of cs) ctx
  unfolding first_of_record winner_record stop_record
  of_first_of cs ctx (inl n) = (
    none,
    rw (first_of_stop cs ctx, n.decision) refl,
    rw (first_of_decision cs ctx, n.decision) refl,
  )
  of_first_of cs ctx (inr s) =
      let (w, found, same) =
        source_of (λ c. evaluate_termination c ctx) (children cs) s.before (stops s.winner) s.after
          s.split in
      let f : FirstOfStopRecord F = record {
        winning_condition_index = length s.before;
        winning_condition = w;
        fired_condition = s.winner.condition;
        evaluated = (evaluate_first_of cs ctx).evaluated;
      } in
      (
        some (stop_record (TerminationCondition.first_of cs) s.winner (some f)),
        rw (first_of_stop cs ctx, s.decision, s.index, found) refl,
        (rw (first_of_decision cs ctx, s.decision) refl, refl, (found, same, refl)),
      )

  of_plain :
      (c : TerminationCondition F) (ctx : EvaluationContext F) (d : TerminationDecision F)
      → evaluate_termination c ctx ≡ d
      → evaluate_termination_stop c ctx ≡ plain_record c (evaluate_termination c ctx)
      → ((e : StopDecision F) → NamesWinner c ctx e none)
      → Recorded c ctx
  unfolding plain_record stop_record
  of_plain c ctx (continues x) e p w = (none, rw (p, e) refl, rw e refl)
  of_plain c ctx (stops s) e p w =
      (some (stop_record c s none), rw (p, e) refl, (rw e refl, refl, w s))

  -- `evaluateTerminationStop` never throws. It returns no record exactly where the evaluation of the
  -- condition continues; otherwise the record has the root condition and the decision that the
  -- evaluation stops with, and for a `firstOf` it names by its index a child that stops with that
  -- decision.
  pub evaluate_termination_stop_total :
      (c : TerminationCondition F) (ctx : EvaluationContext F)
      → (r : Option (TerminationStopRecord F)) × (evaluate_termination_stop c ctx ≡ ok r)
        × IsRecordOf c ctx r
  unfolding evaluate_termination_stop
  evaluate_termination_stop_total (TerminationCondition.first_of cs) ctx =
      of_first_of cs ctx (evaluate_first_of_cases cs ctx)
  evaluate_termination_stop_total (TerminationCondition.budget b) ctx =
      of_plain (TerminationCondition.budget b) ctx _ refl refl (λ e. refl)
  evaluate_termination_stop_total (TerminationCondition.convergence b) ctx =
      of_plain (TerminationCondition.convergence b) ctx _ refl refl (λ e. refl)
  evaluate_termination_stop_total (TerminationCondition.judge b) ctx =
      of_plain (TerminationCondition.judge b) ctx _ refl refl (λ e. refl)
