-- ===== src/Accounting/Recompute.antt =====
-- `recomputeAccountingFromTrace` of src/runtime/defaults.ts: the accounting of a saved trace computed
-- again, with the checks that find a trace whose costs were changed.
pub mod Compared
pub mod Consistent
pub mod Sound
use Prim.Native.String.{◌++◌ as str_append}
use dogpile.Base.{
  ℕ, suc, ltb, ◌==◌, Bool, true, false, Option, none, some, get_or, String, List, [], ◌∷◌, Js,
  if◌then◌else◌,
}
use dogpile.Base.Result.{Result, ok, err, ◌>>=◌, ◌>>◌}
use dogpile.Data.Json.{Json, Fields, num, str, obj, end, field}
use dogpile.Data.Cost.{CostSummary, empty_cost}
use dogpile.Data.Error.{DogpileError, invalid_configuration}
use dogpile.Data.Event.{SubRunIds}
use dogpile.Data.Replay.{RunAccounting, TraceFields}
use dogpile.Data.Trace.{
  RunEvent, Trace, trace, Events, RunResult, run_result, to_list, nil, cons, result_fields,
  events_of, agent_turn, final, budget_stop, sub_run_completed, role_assignment, model_request,
  model_response, model_output_chunk, tool_call, tool_result, broadcast, sub_run_started,
  sub_run_failed, sub_run_parent_aborted, sub_run_budget_clamped, sub_run_queued,
  sub_run_concurrency_clamped,
}
use dogpile.Accounting.{
  create_run_accounting, last_cost_bearing_event_cost, accumulate_sub_run_cost,
}
use dogpile.Accounting.Recompute.Compared.{
  AccountingField, recompute_field_order, field_name, is_usage, Amount, dollars, tokens, Drift,
  float_epsilon, first_differing_field, amount_text, mismatch_detail, mismatch_error, rollup_error,
  cost_usd, cost_input_tokens, cost_output_tokens, cost_total_tokens, usage_usd, usage_input_tokens,
  usage_output_tokens, usage_total_tokens,
}

module _ {F : Type 0} ⦃js : Js F⦄ where
  -- -1, the index of no event.
  abbrev no_event : F
  no_event = js.sub (js.of_nat 0) (js.of_nat 1)

  recorded_recomputed : String → String → Drift F → String
  unfolding amount_text field_name
  recorded_recomputed place id d = str_append "Trace accounting mismatch at " (
      str_append place (
        str_append id (
          str_append ": field \"" (
            str_append (field_name d.field_of) (
              str_append "\" recorded " (
                str_append (amount_text d.recorded)
                  (str_append ", recomputed " (str_append (amount_text d.recomputed) "."))))))))

  unfoldable pub build_local_accounting : TraceFields F → Events F → RunAccounting F
  build_local_accounting t es =
      create_run_accounting t.tier t.budget.caps t.budget.termination t.final_output.cost
        (to_list es)

  -- `if (drift !== null) throw …`.
  unfoldable pub throw_drift :
      (Drift F → DogpileError F) → Option (Drift F) → Result (DogpileError F) (Unit {0})
  throw_drift make none = ok tt
  throw_drift make (some d) = err (make d)

  parent_error : String → Drift F → DogpileError F
  unfolding mismatch_error mismatch_detail recorded_recomputed
  parent_error run_id d =
      mismatch_error (recorded_recomputed "parent run " run_id d)
        (mismatch_detail no_event run_id d)

  -- The cost of the last event that bears one must be that of the final output.
  unfoldable pub check_last_cost :
      TraceFields F → Events F → Option (CostSummary F) → Result (DogpileError F) (Unit {0})
  unfolding parent_error
  check_last_cost t es none = ok tt
  check_last_cost t es (some last_event_cost) = throw_drift (parent_error t.run_id) (
      first_differing_field (build_local_accounting t es) (
        create_run_accounting t.tier t.budget.caps t.budget.termination last_event_cost
          (to_list es)))

  unfoldable pub check_parent : TraceFields F → Events F → Result (DogpileError F) (Unit {0})
  check_parent t es = check_last_cost t es (last_cost_bearing_event_cost (to_list es))

  completed_message : String → Drift F → String
  unfolding amount_text field_name
  completed_message id d = str_append "Trace parent-rollup mismatch at sub-run " (
      str_append id (
        str_append ": field \"" (
          str_append (field_name d.field_of) (
            str_append "\" recorded " (
              str_append (amount_text d.recorded) (
                str_append " on accounting, "
                  (str_append (amount_text d.recomputed) " on subResult.cost.")))))))

  failed_message : String → Drift F → String
  unfolding amount_text field_name
  failed_message id d = str_append "Trace parent-rollup mismatch at sub-run " (
      str_append id (
        str_append ": partialCost field \"" (
          str_append (field_name d.field_of) (
            str_append "\" recorded " (
              str_append (amount_text d.recorded) (
                str_append ", recomputed "
                  (str_append (amount_text d.recomputed) " from partialTrace events.")))))))

  completed_error : ℕ → String → Drift F → DogpileError F
  unfolding rollup_error completed_message
  completed_error i id d = rollup_error (completed_message id d) (js.of_nat i) id d

  failed_error : ℕ → String → Drift F → DogpileError F
  unfolding rollup_error failed_message
  failed_error i id d = rollup_error (failed_message id d) (js.of_nat i) id d

  -- The two places of a completed sub-run's cost agree, and a failed sub-run's cost is that of its
  -- partial trace.
  unfoldable pub check_rollup : TraceFields F → ℕ → RunEvent F → Result (DogpileError F) (Unit {0})
  unfolding completed_error failed_error empty_cost
  check_rollup t i (sub_run_completed ids r) = throw_drift (completed_error i ids.child_run_id) (
      first_differing_field (result_fields r).accounting
        (create_run_accounting t.tier none none (result_fields r).cost []))
  check_rollup t i (sub_run_failed ids e partial_trace partial_cost) =
      throw_drift (failed_error i ids.child_run_id) (
        first_differing_field (create_run_accounting t.tier none none partial_cost []) (
          create_run_accounting t.tier none none
            (get_or (last_cost_bearing_event_cost (events_of partial_trace)) empty_cost) []))
  check_rollup t i e = ok tt

  unfoldable pub check_rollups :
      TraceFields F → ℕ → List (RunEvent F) → Result (DogpileError F) (Unit {0})
  check_rollups t i [] = ok tt
  check_rollups t i (e ∷ es) = check_rollup t i e >> check_rollups t (suc i) es

  -- `childValue - parentValue > FLOAT_EPSILON`: for counts the difference is whole.
  unfoldable pub exceeds : Amount F → Amount F → Bool
  exceeds (dollars child) (dollars parent) = js.lt float_epsilon (js.sub child parent)
  exceeds (tokens child) (tokens parent) = ltb parent child
  exceeds child parent = false

  -- `cost[key]`.
  unfoldable pub read_cost : CostSummary F → AccountingField → Amount F
  read_cost c cost_usd = dollars c.usd
  read_cost c cost_input_tokens = tokens c.input_tokens
  read_cost c cost_output_tokens = tokens c.output_tokens
  read_cost c cost_total_tokens = tokens c.total_tokens
  read_cost c usage_usd = dollars c.usd
  read_cost c usage_input_tokens = tokens c.input_tokens
  read_cost c usage_output_tokens = tokens c.output_tokens
  read_cost c usage_total_tokens = tokens c.total_tokens

  total_message : String → Drift F → String
  unfolding amount_text field_name
  total_message run_id d = str_append "Trace parent-rollup mismatch at run " (
      str_append run_id (
        str_append ": field \"" (
          str_append (field_name d.field_of) (
            str_append "\" Σ children " (
              str_append (amount_text d.recomputed) (
                str_append " exceeds parent recorded "
                  (str_append (amount_text d.recorded) ".")))))))

  total_error : String → AccountingField → Amount F → Amount F → DogpileError F
  unfolding rollup_error total_message
  total_error run_id f parent child =
      let d : Drift F = record { field_of = f; recorded = parent; recomputed = child } in
      rollup_error (total_message run_id d) no_event run_id d

  -- The children's sum does not exceed the parent's total, by the loop over the fields.
  unfoldable pub check_totals :
      String
      → List AccountingField
      → CostSummary F
      → CostSummary F
      → Result (DogpileError F) (Unit {0})
  unfolding total_error
  check_totals run_id [] parent_total sub_run_total = ok tt
  check_totals run_id (f ∷ fs) parent_total sub_run_total =
      let rest = check_totals run_id fs parent_total sub_run_total in
      if is_usage f
      then rest
      else if exceeds (read_cost sub_run_total f) (read_cost parent_total f)
      then err (total_error run_id f (read_cost parent_total f) (read_cost sub_run_total f))
      else rest

  child_error : ℕ → String → Drift F → DogpileError F
  unfolding mismatch_error mismatch_detail recorded_recomputed
  child_error i id d =
      mismatch_error (recorded_recomputed "sub-run " id d) (mismatch_detail (js.of_nat i) id d)

  -- The recorded accounting of a completed sub-run against the recomputed one.
  unfoldable pub check_child :
      ℕ → String → RunAccounting F → RunAccounting F → Result (DogpileError F) (Unit {0})
  unfolding child_error
  check_child i child_run_id recorded recomputed =
      throw_drift (child_error i child_run_id) (first_differing_field recorded recomputed)

  unfoldable mutual
    pub recompute_accounting_from_trace : Trace F → Result (DogpileError F) (RunAccounting F)
    recompute_accounting_from_trace (trace t es) =
        check_parent t es
        >> check_rollups t 0 (to_list es)
        >> check_totals t.run_id recompute_field_order t.final_output.cost
            (accumulate_sub_run_cost (to_list es))
        >> check_children 0 es
        >> ok (build_local_accounting t es)

    -- The loop over the completed sub-runs.
    pub check_children : ℕ → Events F → Result (DogpileError F) (Unit {0})
    check_children i nil = ok tt
    check_children i (cons e es) = check_event i e >> check_children (suc i) es

    pub check_event : ℕ → RunEvent F → Result (DogpileError F) (Unit {0})
    check_event i (sub_run_completed ids r) = check_result i ids r
    check_event i e = ok tt

    pub check_result : ℕ → SubRunIds → RunResult F → Result (DogpileError F) (Unit {0})
    check_result i ids (run_result r t log) =
        recompute_accounting_from_trace t >>= check_child i ids.child_run_id r.accounting
