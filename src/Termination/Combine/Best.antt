-- ===== src/Termination/Combine/Best.antt =====
-- Which of several simultaneous decisions is kept.
use dogpile.Base.{ℕ, ◌<◌, ◌≤◌, List, [], ◌∷◌, ◌++◌, ◌≡◌, ◌⊎◌, All, true}
use dogpile.Base.Result.{ok, err}
use dogpile.Data.Condition.{StopDecision, TerminationDecision, continues, stops}
use dogpile.Termination.Evaluate.{RangeError}
use dogpile.Termination.Evaluate.Stop.{is_continue}
use dogpile.Termination.Combine.{
  stop_precedence, stop_decisions, reduce, combine_termination_decisions,
}

module _ {F : Type 0} where
  abbrev pub precedence : StopDecision F → ℕ
  precedence d = stop_precedence d.normalized_reason

  -- A decision that `w` beats outright, or that it beats or equals.
  abbrev pub IsBeaten : StopDecision F → TerminationDecision F → Type 0
  IsBeaten w (continues c) = Unit {0}
  IsBeaten w (stops d) = precedence w < precedence d

  abbrev pub IsNotBetter : StopDecision F → TerminationDecision F → Type 0
  IsNotBetter w (continues c) = Unit {0}
  IsNotBetter w (stops d) = precedence w ≤ precedence d

  -- `w` is in the list, beats all before it, and nothing behind it is better.
  pub record IsBest (w : StopDecision F) (ds : List (TerminationDecision F)) : Type 0 where
    pub before : List (TerminationDecision F)
    pub after : List (TerminationDecision F)
    pub split : ds ≡ before ++ stops w ∷ after
    pub beaten : All (IsBeaten w) before
    pub not_better : All (IsNotBetter w) after

  abbrev pub AllContinue : List (TerminationDecision F) → Type 0
  AllContinue = All (λ d. is_continue d ≡ true)

  -- The three outcomes: no decisions, none that stops, and the best of those that stop.
  abbrev pub Combined : List (TerminationDecision F) → Type 0
  Combined ds =
      ((ds ≡ []) × ((e : RangeError) × (combine_termination_decisions ds ≡ err e)))
      ⊎ (((d : TerminationDecision F) × (rest : List (TerminationDecision F)) × (ds ≡ d ∷ rest)
            × AllContinue ds
            × (combine_termination_decisions ds ≡ ok d))
          ⊎ ((w : StopDecision F) × (combine_termination_decisions ds ≡ ok (stops w))
              × IsBest w ds))

  -- The decisions before the first stop are passed over.
  abbrev Searched : List (TerminationDecision F) → List (TerminationDecision F) → Type 0
  Searched seen ds =
      (AllContinue ds × (stop_decisions ds ≡ []))
      ⊎ ((d : StopDecision F) × (rest : List (StopDecision F)) × (stop_decisions ds ≡ d ∷ rest)
          × IsBest (reduce d rest) (seen ++ ds))
