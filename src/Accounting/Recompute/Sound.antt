-- ===== src/Accounting/Recompute/Sound.antt =====
-- The recomputation of src/runtime/defaults.ts decides the consistency of a trace, check by check.
use dogpile.Base.{
  ℕ, suc, true, false, Option, none, some, String, List, [], ◌∷◌, All, Js, Bool, if◌then◌else◌, ◌≡◌,
  refl, ◌⊎◌, ◌↔◌, inl, inr, arith, sym, ◌∙◌, subst,
}
use dogpile.Base.Result.{Result, ok, err, ◌>>=◌, ◌>>◌}
use dogpile.Data.Cost.{CostSummary}
use dogpile.Data.Error.{DogpileError}
use dogpile.Data.Event.{SubRunIds}
use dogpile.Data.Replay.{RunAccounting, TraceFields}
use dogpile.Data.Trace.{
  RunEvent, Trace, trace, Events, RunResult, run_result, to_list, nil, cons, fields_of,
  sub_run_completed, sub_run_failed,
}
use dogpile.Accounting.{
  create_run_accounting, create_run_usage, last_cost_bearing_event_cost, accumulate_sub_run_cost,
}
use dogpile.Accounting.Recompute.{
  build_local_accounting, throw_drift, parent_error, child_error, completed_error, failed_error,
  check_last_cost, total_error, check_parent, check_rollup, check_rollups, exceeds, read_cost,
  check_totals, check_child, recompute_accounting_from_trace, check_children, check_event,
  check_result,
}
use dogpile.Accounting.Recompute.Compared.{
  AccountingField, recompute_field_order, first_differing_field, Drift, mismatch_error,
  rollup_error, is_usage,
}
use dogpile.Accounting.Recompute.Consistent.{
  IsMismatch, Decides, both, CostsAgree, Shows, IsLastCost, RollupAgrees, IsCovered, IsConsistent,
  AreConsistent, EventIsConsistent, ResultIsConsistent, first_differing_field-cases, false-true,
}

ok_err : {E A : Type 0} {r : Result E A} {a : A} {e : E} → r ≡ ok a → r ≡ err e → ⊥
ok_err p q = cc

err_injective : {E A : Type 0} {x y : E} → ◌≡◌ {A = Result E A} (err x) (err y) → x ≡ y
err_injective e = cc

abbrev NotAboveWhen : Bool → Bool → Type 0
NotAboveWhen true above = Unit
NotAboveWhen false above = above ≡ false

module _ {F : Type 0} ⦃js : Js F⦄ where
  AllMismatch : (Drift F → DogpileError F) → Type 0
  AllMismatch make = (d : Drift F) → IsMismatch (make d)

  throw_drift-Decides :
      (make : Drift F → DogpileError F) (recorded recomputed : RunAccounting F)
      → AllMismatch make
      → Decides
          (throw_drift make (first_differing_field recorded recomputed))
          (CostsAgree recorded.cost recomputed.cost × CostsAgree recorded.usage recomputed.usage)
  unfolding throw_drift AllMismatch
  throw_drift-Decides make recorded recomputed mismatch =
      elim (first_differing_field-cases recorded recomputed) [
        | inl (n, cost, usage) ↦ inl (rw n refl, (cost, usage))
        | inr (d, n, differ) ↦ inr (make d, rw n refl, mismatch d, differ)
      ]

  -- The same where both headings of the accountings are the same costs.
  once : {m : Result (DogpileError F) (Unit {0})} {P : Type 0} → Decides m (P × P) → Decides m P
  once (inl (e, (p, q))) = inl (e, p)
  once (inr (x, e, mismatch, differ)) = inr (x, e, mismatch, λ h. differ (h, h))

  check_last_cost-Decides :
      (t : TraceFields F) (es : Events F) (last : Option (CostSummary F))
      → Decides (check_last_cost t es last) (IsLastCost last t.final_output.cost)
  unfolding check_last_cost IsLastCost build_local_accounting create_run_accounting create_run_usage
      AllMismatch IsMismatch parent_error mismatch_error
  check_last_cost-Decides t es none = inl (refl, tt)
  check_last_cost-Decides t es (some c) =
      once (throw_drift-Decides _ _ _ (λ d. (refl, refl, (_, refl))))

  check_rollup-Decides :
      (t : TraceFields F) (i : ℕ) (e : RunEvent F) → Decides (check_rollup t i e) (RollupAgrees e)
  unfolding check_rollup RollupAgrees Shows create_run_accounting create_run_usage AllMismatch
      IsMismatch completed_error failed_error rollup_error mismatch_error
  check_rollup-Decides t i (sub_run_completed ids r) =
      throw_drift-Decides _ _ _ (λ d. (refl, refl, (_, refl)))
  check_rollup-Decides t i (sub_run_failed ids e partial_trace c) =
      once (throw_drift-Decides _ _ _ (λ d. (refl, refl, (_, refl))))
  check_rollup-Decides t i e = inl (refl, tt)

  check_rollups-Decides :
      (t : TraceFields F) (i : ℕ) (es : List (RunEvent F))
      → Decides (check_rollups t i es) (All RollupAgrees es)
  unfolding check_rollups
  check_rollups-Decides t i [] = inl (refl, tt)
  check_rollups-Decides t i (e ∷ es) =
      both _ _ (check_rollup-Decides t i e) (check_rollups-Decides t (suc i) es)

  abbrev NotAbove : AccountingField → CostSummary F → CostSummary F → Type 0
  NotAbove f parent children =
      NotAboveWhen (is_usage f) (exceeds (read_cost children f) (read_cost parent f))

  field-Decides :
      (usage above : Bool) (x : DogpileError F) (rest : Result (DogpileError F) (Unit {0}))
      {P : Type 0}
      → IsMismatch x
      → Decides rest P
      → Decides
          (if usage then rest else if above then err x else rest)
          (NotAboveWhen usage above × P)
  field-Decides true above x rest mismatch d = both (ok tt) rest (inl (refl, tt)) d
  field-Decides false true x rest mismatch d = inr (x, refl, mismatch, λ h. false-true (sym h.0))
  field-Decides false false x rest mismatch d = both (ok tt) rest (inl (refl, refl)) d

  check_totals-Decides :
      (id : String) (fs : List AccountingField) (parent children : CostSummary F)
      → Decides (check_totals id fs parent children) (All (λ f. NotAbove f parent children) fs)
  unfolding check_totals total_error rollup_error mismatch_error IsMismatch
  check_totals-Decides id [] parent children = inl (refl, tt)
  check_totals-Decides id (f ∷ fs) parent children =
      field-Decides (is_usage f) (exceeds (read_cost children f) (read_cost parent f)) _ _
        (refl, refl, (_, refl)) (check_totals-Decides id fs parent children)

  IsCovered-iff :
      (parent children : CostSummary F)
      → All (λ f. NotAbove f parent children) recompute_field_order ↔ IsCovered children parent
  unfolding IsCovered is_usage exceeds read_cost
  IsCovered-iff parent children = (
    λ (u, (i, (o, (t, _)))). (u, ground (arith, i), ground (arith, o), ground (arith, t)),
    λ (u, i, o, t). (
      u,
      (ground (arith, i), (ground (arith, o), (ground (arith, t), (tt, (tt, (tt, (tt, tt))))))),
    ),
  )

  along :
      {m : Result (DogpileError F) (Unit {0})} {P Q : Type 0} → P ↔ Q → Decides m P → Decides m Q
  along (to, from) (inl (e, p)) = inl (e, to p)
  along (to, from) (inr (x, e, mismatch, fails)) = inr (x, e, mismatch, λ q. fails (from q))

  -- The checks of a run up to the ones of its children.
  own_checks-Decides :
      (t : TraceFields F) (es : Events F)
      → Decides
          (check_parent t es
            >> check_rollups t 0 (to_list es)
            >> check_totals t.run_id recompute_field_order t.final_output.cost
                (accumulate_sub_run_cost (to_list es)))
          ((IsLastCost (last_cost_bearing_event_cost (to_list es)) t.final_output.cost
              × All RollupAgrees (to_list es))
            × IsCovered (accumulate_sub_run_cost (to_list es)) t.final_output.cost)
  unfolding check_parent
  own_checks-Decides t es =
      both _ _ (both _ _ (check_last_cost-Decides t es _) (check_rollups-Decides t 0 _))
        (along (IsCovered-iff _ _) (check_totals-Decides _ _ _ _))

  abbrev pub local_of : Trace F → RunAccounting F
  local_of (trace t es) = build_local_accounting t es

  -- The recomputation gives the local accounting of a consistent trace, and fails on another.
  abbrev TraceDecides : Trace F → Type 0
  TraceDecides t =
      ((recompute_accounting_from_trace t ≡ ok (local_of t)) × IsConsistent t)
      ⊎ ((e : DogpileError F) × (recompute_accounting_from_trace t ≡ err e)
          × IsMismatch e
          × (¬ IsConsistent t))

  then_local :
      (m : Result (DogpileError F) (Unit {0})) (a : RunAccounting F) {P : Type 0}
      → Decides m P
      → (((m >> ok a) ≡ ok a) × P)
        ⊎ ((e : DogpileError F) × ((m >> ok a) ≡ err e) × IsMismatch e × (¬ P))
  then_local m a (inl (e, p)) = inl (rw e refl, p)
  then_local m a (inr (x, e, mismatch, fails)) = inr (x, rw e refl, mismatch, fails)

  check_child-Decides :
      (i : ℕ) (id : String) (recorded : RunAccounting F) (t : Trace F)
      → Decides
          (check_child i id recorded (local_of t))
          (Shows recorded (fields_of t).final_output.cost)
  unfolding check_child Shows build_local_accounting create_run_accounting create_run_usage
      AllMismatch IsMismatch child_error mismatch_error
  check_child-Decides i id recorded (trace t es) =
      throw_drift-Decides _ _ _ (λ d. (refl, refl, (_, refl)))

  after_recompute :
      (i : ℕ) (id : String) (recorded : RunAccounting F) (t : Trace F)
      → TraceDecides t
      → Decides
          (recompute_accounting_from_trace t >>= check_child i id recorded)
          (IsConsistent t × Shows recorded (fields_of t).final_output.cost)
  after_recompute i id recorded t (inl (e, c)) =
      rw e (both (ok tt) _ (inl (refl, c)) (check_child-Decides i id recorded t))
  after_recompute i id recorded t (inr (x, e, mismatch, fails)) =
      inr (x, rw e refl, mismatch, λ h. fails h.0)

  mutual
    unfolding recompute_accounting_from_trace IsConsistent

    trace-Decides : (t : Trace F) → TraceDecides t
    trace-Decides (trace t es) =
        then_local _ _ (both _ _ (own_checks-Decides t es) (children-Decides 0 es))

    children-Decides : (i : ℕ) (es : Events F) → Decides (check_children i es) (AreConsistent es)
    children-Decides i nil = inl (refl, tt)
    children-Decides i (cons e es) = both _ _ (event-Decides i e) (children-Decides (suc i) es)

    event-Decides : (i : ℕ) (e : RunEvent F) → Decides (check_event i e) (EventIsConsistent e)
    event-Decides i (sub_run_completed ids r) = result-Decides i ids r
    event-Decides i e = inl (refl, tt)

    result-Decides :
        (i : ℕ) (ids : SubRunIds) (r : RunResult F)
        → Decides (check_result i ids r) (ResultIsConsistent r)
    result-Decides i ids (run_result r t log) =
        after_recompute i ids.child_run_id r.accounting t (trace-Decides t)

  -- The recomputation returns exactly on the consistent traces, and then the local accounting: at
  -- every depth the last cost-bearing event shows the cost of the final output, both accounts of each
  -- completed child show its result's cost and that of its own trace's final output, each failed child
  -- has the cost of its partial trace, and the children together cost no more than the run.
  pub recompute_accounting_from_trace_iff :
      (t : Trace F) → (recompute_accounting_from_trace t ≡ ok (local_of t)) ↔ IsConsistent t
  recompute_accounting_from_trace_iff t = elim (trace-Decides t) [
    | inl (e, c) ↦ (λ h. c, λ h. e)
    | inr (x, e, mismatch, fails) ↦ (λ h. elim (ok_err h e) [ ], λ c. elim (fails c) [ ])
  ]

  -- A recomputation that fails throws a mismatch of the accounting, an invalid configuration that is
  -- not retried, and its trace is not consistent.
  pub recompute_accounting_from_trace-IsMismatch :
      (t : Trace F) (e : DogpileError F)
      → recompute_accounting_from_trace t ≡ err e
      → IsMismatch e × (¬ IsConsistent t)
  recompute_accounting_from_trace-IsMismatch t e h = elim (trace-Decides t) [
    | inl (o, c) ↦ elim (ok_err o h) [ ]
    | inr (x, f, mismatch, fails) ↦ (subst IsMismatch (err_injective (sym f ∙ h)) mismatch, fails)
  ]
