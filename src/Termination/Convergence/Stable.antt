-- ===== src/Termination/Convergence/Stable.antt =====
-- When a convergence condition lets a run go on.
use dogpile.Base.{
  ℕ, ◌-◌, ◌<◌, ◌⊎◌, ◌++◌, inl, inr, subst, drop, length-append, arith, max, Bool, true, false, ◌||◌,
  List, [], ◌∷◌, Js, HasRealMin, ltb, length, All, ◌≡◌, refl, ◌∙◌, sym, ap, if◌then◌else◌,
}
use dogpile.Data.Condition.{
  ConvergenceCondition, TerminationCondition, StopDecision, continues, stops,
}
use dogpile.Data.Context.{EvaluationContext}
use dogpile.Data.Agent.{TranscriptEntry}
use dogpile.Termination.Similarity.{output_similarity, consecutive_similarities}
use dogpile.Termination.Convergence.{evaluate_convergence, observed_similarity, recent_entries}
use dogpile.Termination.Evaluate.Stop.{is_continue}

or_false : (b : Bool) → b || false ≡ b
or_false true = refl
or_false false = refl

module _ {A : Type 0} where
  -- The last `n` values, or all of them where there are fewer.
  abbrev pub IsRecent : ℕ → List A → List A → Type 0
  IsRecent n older recent = (length recent ≡ n) ⊎ ((older ≡ []) × (length recent < n))

  before_recent :
      (n : ℕ) (older recent : List A)
      → IsRecent n older recent
      → length (older ++ recent) - n ≡ length older
  before_recent n older recent (inl e) = omega (arith, e, length-append older recent)
  before_recent n older recent (inr (none_older, less)) =
      omega (arith, less, length-append older recent, ap length none_older)

  drop-length : (older recent : List A) → drop (length older) (older ++ recent) ≡ recent
  drop-length [] recent = refl
  drop-length (x ∷ older) recent = drop-length older recent

module _ {F : Type 0} where
  decided :
      (few below : Bool) (go : TerminationCondition F) (d : StopDecision F)
      → is_continue (if few then continues go else if below then continues go else stops d)
        ≡ few || below
  decided true below go d = refl
  decided false true go d = refl
  decided false false go d = refl

module _ {F : Type 0} ⦃js : Js F⦄ where
  -- Some number of a list is below a bound.
  abbrev pub any_below : F → List F → Bool
  any_below bound [] = false
  any_below bound (s ∷ ss) = js.lt s bound || any_below bound ss

  abbrev pub IsReal : F → Type 0
  IsReal s = js.le s s ≡ true

  real :
      HasRealMin js
      → (s : F) (ss : List F) → All IsReal (s ∷ ss)
      → IsReal (observed_similarity (s ∷ ss))
  unfolding observed_similarity
  real m s [] (r, a) = r
  real m s (t ∷ ts) (r, a) =
      let rest = real m t ts a in
      elim (m.min_of-either s _ r rest) [
        | inl e ↦ subst IsReal (sym e) r
        | inr e ↦ subst IsReal (sym e) rest
      ]

  -- The minimum of two numbers is below a bound where one of them is.
  min_below :
      HasRealMin js
      → (x y bound : F) (b c : Bool) → IsReal x
      → IsReal y
      → js.lt x bound ≡ b
      → js.lt y bound ≡ c
      → js.lt (js.min_of x y) bound ≡ b || c
  min_below m x y bound true c r q e f =
      m.le_lt_trans (js.min_of x y) x bound (m.min_of-first x y r q) e
  min_below m x y bound false true r q e f =
      m.le_lt_trans (js.min_of x y) y bound (m.min_of-second x y r q) f
  min_below m x y bound false false r q e f = elim (m.min_of-either x y r q) [
    | inl g ↦ ap (λ w. js.lt w bound) g ∙ e
    | inr g ↦ ap (λ w. js.lt w bound) g ∙ f
  ]

  below_one :
      HasRealMin js
      → (bound s : F) (ss : List F) → All IsReal (s ∷ ss)
      → js.lt (observed_similarity (s ∷ ss)) bound ≡ any_below bound (s ∷ ss)
  unfolding observed_similarity
  below_one m bound s [] a = sym (or_false (js.lt s bound))
  below_one m bound s (t ∷ ts) (r, a) =
      min_below m s (observed_similarity (t ∷ ts)) bound _ _ r (real m t ts a) refl
        (below_one m bound t ts a)

  below_any :
      HasRealMin js
      → (bound : F) (ss : List F) → js.lt (js.of_nat 1) bound ≡ false
      → All IsReal ss
      → js.lt (observed_similarity ss) bound ≡ any_below bound ss
  unfolding observed_similarity
  below_any m bound [] h a = h
  below_any m bound (s ∷ ss) h a = below_one m bound s ss a

  -- Some two outputs in a row are less similar than the bound.
  unfoldable pub any_dissimilar : F → List (TranscriptEntry F) → Bool
  any_dissimilar bound [] = false
  any_dissimilar bound (e ∷ []) = false
  any_dissimilar bound (e ∷ f ∷ es) =
      js.lt (output_similarity e.output f.output) bound || any_dissimilar bound (f ∷ es)

  -- The similarity of every two outputs in a row is a number.
  unfoldable pub AreComparable : List (TranscriptEntry F) → Type 0
  AreComparable [] = Unit
  AreComparable (e ∷ []) = Unit
  AreComparable (e ∷ f ∷ es) = IsReal (output_similarity e.output f.output) × AreComparable (f ∷ es)

  any_below-similarities :
      (bound : F) (es : List (TranscriptEntry F))
      → any_below bound (consecutive_similarities es) ≡ any_dissimilar bound es
  unfolding any_dissimilar consecutive_similarities
  any_below-similarities bound [] = refl
  any_below-similarities bound (e ∷ []) = refl
  any_below-similarities bound (e ∷ f ∷ es) =
      ap (λ b. js.lt (output_similarity e.output f.output) bound || b)
        (any_below-similarities bound (f ∷ es))

  similarities-IsReal :
      (es : List (TranscriptEntry F)) → AreComparable es → All IsReal (consecutive_similarities es)
  unfolding AreComparable consecutive_similarities
  similarities-IsReal [] h = tt
  similarities-IsReal (e ∷ []) h = tt
  similarities-IsReal (e ∷ f ∷ es) (r, h) = (r, similarities-IsReal (f ∷ es) h)

  recent_entries_lem :
      (n : ℕ) (older recent transcript : List (TranscriptEntry F))
      → IsRecent n older recent
      → transcript ≡ older ++ recent
      → recent_entries n transcript ≡ recent
  unfolding recent_entries
  recent_entries_lem n older recent transcript h e =
      ap (λ es. drop (length es - n) es) e
      ∙ ap (λ k. drop k (older ++ recent)) (before_recent n older recent h)
      ∙ drop-length older recent

  -- On similarities that are numbers, with a required similarity of at most 1: let `recent` be the last
  -- turns of the transcript, as many as the condition looks at, or all where there are fewer. The
  -- condition lets the run go on exactly if there are fewer, or if two outputs in a row among the recent
  -- turns are less similar than required.
  pub evaluate_convergence-continues :
      HasRealMin js
      → (c : ConvergenceCondition F) (ctx : EvaluationContext F)
        (older recent : List (TranscriptEntry F))
      → ctx.transcript ≡ older ++ recent
      → IsRecent (max 1 c.stable_turns) older recent
      → js.lt (js.of_nat 1) c.min_similarity ≡ false
      → AreComparable recent
      → is_continue (evaluate_convergence c ctx)
        ≡ ltb (length ctx.transcript) (max 1 c.stable_turns)
          || any_dissimilar c.min_similarity recent
  unfolding evaluate_convergence
  evaluate_convergence-continues m c ctx older recent e is h a =
      let n = max 1 c.stable_turns in
      decided (ltb (length ctx.transcript) n) _ _ _
      ∙ ap (λ b. ltb (length ctx.transcript) n || b)
          (ap (λ es. js.lt (observed_similarity (consecutive_similarities es)) c.min_similarity)
              (recent_entries_lem n older recent ctx.transcript is e)
            ∙ below_any m c.min_similarity _ h (similarities-IsReal recent a)
            ∙ any_below-similarities c.min_similarity recent)
