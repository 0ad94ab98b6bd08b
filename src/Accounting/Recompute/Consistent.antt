-- ===== src/Accounting/Recompute/Consistent.antt =====
-- What it is for a saved trace to be consistent, down to the traces of its sub-runs, apart from the
-- code of src/runtime/defaults.ts, and what the comparison of two accountings finds.
use dogpile.Base.{
  ◌≤◌, true, false, Option, none, some, get_or, List, [], ◌∷◌, All, Js, ◌≡◌, refl, ◌⊎◌, ◌↔◌, inl,
  inr, Bool-cases, ==_iff, sym, ◌∙◌,
}
use dogpile.Base.Result.{Result, ok, err, ◌>>◌}
use dogpile.Data.Json.{Fields, str, obj, field}
use dogpile.Data.Cost.{CostSummary, empty_cost}
use dogpile.Data.Error.{DogpileError, invalid_configuration}
use dogpile.Data.Replay.{RunAccounting}
use dogpile.Data.Trace.{
  RunEvent, Trace, trace, Events, RunResult, run_result, to_list, nil, cons, result_fields,
  events_of, fields_of, sub_run_completed, sub_run_failed,
}
use dogpile.Accounting.{last_cost_bearing_event_cost, accumulate_sub_run_cost}
use dogpile.Accounting.Recompute.Compared.{
  AccountingField, recompute_field_order, Amount, dollars, tokens, Drift, read_numeric_field,
  fields_equal, first_drift, first_differing_field, float_epsilon,
}

pub false-true : false ≡ true → ⊥
false-true e = cc

module _ {F : Type 0} where
  -- A mismatch of an accounting: not retried, and marked as such in its detail.
  unfoldable pub IsMismatch : DogpileError F → Type 0
  IsMismatch e =
      (e.code ≡ invalid_configuration)
      × (e.retryable ≡ some false)
      × ((rest : Fields F) × (e.detail
            ≡ some (
                obj (
                  field "kind" (str "trace-validation")
                    (field "reason" (str "trace-accounting-mismatch") rest)))))

  -- A check that passes exactly where `P` holds, and fails with a mismatch.
  abbrev pub Decides : Result (DogpileError F) (Unit {0}) → Type 0 → Type 0
  Decides m P = ((m ≡ ok tt) × P) ⊎ ((e : DogpileError F) × (m ≡ err e) × IsMismatch e × (¬ P))

  pub both :
      (m k : Result (DogpileError F) (Unit {0})) {P Q : Type 0}
      → Decides m P
      → Decides k Q
      → Decides (m >> k) (P × Q)
  both m k (inl (e, p)) (inl (f, q)) = inl (rw e f, (p, q))
  both m k (inl (e, p)) (inr (x, f, x_mismatch, fails)) =
      inr (x, rw e f, x_mismatch, λ h. fails h.1)
  both m k (inr (x, e, x_mismatch, fails)) d = inr (x, rw e refl, x_mismatch, λ h. fails h.0)

module _ {F : Type 0} ⦃js : Js F⦄ where
  -- Two costs agree: in dollars up to the tolerance, in tokens exactly.
  unfoldable pub CostsAgree : CostSummary F → CostSummary F → Type 0
  CostsAgree a b =
      (js.lt (js.abs (js.sub a.usd b.usd)) float_epsilon ≡ true)
      × (a.input_tokens ≡ b.input_tokens)
      × (a.output_tokens ≡ b.output_tokens)
      × (a.total_tokens ≡ b.total_tokens)

  -- An accounting shows the cost, under both of its headings.
  unfoldable pub Shows : RunAccounting F → CostSummary F → Type 0
  Shows a c = CostsAgree a.cost c × CostsAgree a.usage c

  unfoldable pub IsLastCost : Option (CostSummary F) → CostSummary F → Type 0
  IsLastCost none c = Unit
  IsLastCost (some last) c = CostsAgree c last

  unfoldable pub RollupAgrees : RunEvent F → Type 0
  RollupAgrees (sub_run_completed ids r) = Shows (result_fields r).accounting (result_fields r).cost
  RollupAgrees (sub_run_failed ids e partial_trace partial_cost) =
      CostsAgree partial_cost
        (get_or (last_cost_bearing_event_cost (events_of partial_trace)) empty_cost)
  RollupAgrees e = Unit

  -- The children together cost no more than the run.
  unfoldable pub IsCovered : CostSummary F → CostSummary F → Type 0
  IsCovered children run =
      (js.lt float_epsilon (js.sub children.usd run.usd) ≡ false)
      × (children.input_tokens ≤ run.input_tokens)
      × (children.output_tokens ≤ run.output_tokens)
      × (children.total_tokens ≤ run.total_tokens)

  unfoldable mutual
    pub IsConsistent : Trace F → Type 0
    IsConsistent (trace t es) =
        ((IsLastCost (last_cost_bearing_event_cost (to_list es)) t.final_output.cost
            × All RollupAgrees (to_list es))
          × IsCovered (accumulate_sub_run_cost (to_list es)) t.final_output.cost)
        × AreConsistent es

    pub AreConsistent : Events F → Type 0
    AreConsistent nil = Unit
    AreConsistent (cons e es) = EventIsConsistent e × AreConsistent es

    pub EventIsConsistent : RunEvent F → Type 0
    EventIsConsistent (sub_run_completed ids r) = ResultIsConsistent r
    EventIsConsistent e = Unit

    -- The child's own trace is consistent, and its accounting shows the cost of its final output.
    pub ResultIsConsistent : RunResult F → Type 0
    ResultIsConsistent (run_result r t log) =
        IsConsistent t × Shows r.accounting (fields_of t).final_output.cost

  abbrev pub AmountsAgree : Amount F → Amount F → Type 0
  AmountsAgree (dollars a) (dollars b) = js.lt (js.abs (js.sub a b)) float_epsilon ≡ true
  AmountsAgree (tokens a) (tokens b) = a ≡ b
  AmountsAgree a b = ⊥

  pub fields_equal_iff : (a b : Amount F) → (fields_equal a b ≡ true) ↔ AmountsAgree a b
  unfolding fields_equal
  fields_equal_iff (dollars a) (dollars b) = (λ h. h, λ h. h)
  fields_equal_iff (tokens a) (tokens b) = ==_iff a b
  fields_equal_iff (dollars a) (tokens b) = (λ h. cc, λ h. elim h [ ])
  fields_equal_iff (tokens a) (dollars b) = (λ h. cc, λ h. elim h [ ])

  -- The accountings agree in the given fields.
  abbrev AgreeIn : RunAccounting F → RunAccounting F → List AccountingField → Type 0
  unfolding read_numeric_field
  AgreeIn a b fs = All (λ f. AmountsAgree (read_numeric_field a f) (read_numeric_field b f)) fs

  first_drift-cases :
      (fs : List AccountingField) (a b : RunAccounting F)
      → ((first_drift fs a b ≡ none) × AgreeIn a b fs)
        ⊎ ((d : Drift F) × (first_drift fs a b ≡ some d) × (¬ AgreeIn a b fs))
  unfolding first_drift AgreeIn
  first_drift-cases [] a b = inl (refl, tt)
  first_drift-cases (f ∷ fs) a b =
      let eq = fields_equal_iff (read_numeric_field a f) (read_numeric_field b f) in
      elim (Bool-cases (fields_equal (read_numeric_field a f) (read_numeric_field b f))) [
        | inl e ↦ elim (first_drift-cases fs a b) [
          | inl (n, agree) ↦ inl (rw e n, (eq.0 e, agree))
          | inr (d, n, differ) ↦ inr (d, rw e n, λ h. differ h.1)
        ]
        | inr e ↦ inr (
          record {
            field_of = f;
            recorded = read_numeric_field a f;
            recomputed = read_numeric_field b f;
          },
          rw e refl,
          λ h. false-true (sym e ∙ eq.1 h.0),
        )
      ]

  pub first_differing_field-cases :
      (a b : RunAccounting F)
      → ((first_differing_field a b ≡ none) × CostsAgree a.cost b.cost × CostsAgree a.usage b.usage)
        ⊎ ((d : Drift F) × (first_differing_field a b ≡ some d)
            × (¬ (CostsAgree a.cost b.cost × CostsAgree a.usage b.usage)))
  unfolding first_differing_field AgreeIn CostsAgree read_numeric_field
  first_differing_field-cases a b = elim (first_drift-cases recompute_field_order a b) [
    | inl (n, (u, (i, (o, (t, (u', (i', (o', (t', _))))))))) ↦
        inl (n, (u, i, o, t), (u', i', o', t'))
    | inr (d, n, differ) ↦ inr (
      d,
      n,
      λ ((u, i, o, t), (u', i', o', t')). differ (u, (i, (o, (t, (u', (i', (o', (t', tt)))))))),
    )
  ]
