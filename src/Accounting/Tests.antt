-- ===== src/Accounting/Tests.antt =====
-- The accounting of a run with one child, in billionths of a dollar, and of the same run with the
-- child's cost changed.
use dogpile.Base.{ℕ, none, List, [], ◌∷◌, map, All, ◌≡◌, refl, ◌↔◌}
use dogpile.Base.Result.{Result, ok, err}
use dogpile.Data.Agent.{Protocol, BudgetTier}
use dogpile.Data.Error.{DogpileError, unknown}
use dogpile.Data.Cost.{add_cost, empty_cost}
use dogpile.Data.Replay.{RunAccounting}
use dogpile.Data.Trace.{RunEvent, Trace, of_list, sub_run_completed, run_result, final}
use dogpile.Samples.{nano_js, whole_js, cost_of, trace_with, turn_event, role_event}
use dogpile.Accounting.{
  create_run_accounting, create_run_metadata, first_bearing, bearing, create_run_usage,
  accumulate_from, accumulate_sub_run_cost, create_replay_trace_budget_state_changes,
  last_cost_bearing_event_cost, last_of,
}
use dogpile.Accounting.Changes.{
  IsChangeOf, bearing_costs, create_replay_trace_budget_state_changes-last,
  create_replay_trace_budget_state_changes_lem,
}
use dogpile.Accounting.Recompute.{
  recompute_accounting_from_trace, check_parent, check_last_cost, throw_drift,
  build_local_accounting, check_rollups, check_rollup, check_totals, check_child, exceeds,
  read_cost,
}
use dogpile.Accounting.Recompute.Compared.{
  first_differing_field, first_drift, fields_equal, read_numeric_field, is_usage,
}
use dogpile.Accounting.Recompute.Consistent.{IsConsistent, IsMismatch}
use dogpile.Accounting.Recompute.Sound.{
  local_of, recompute_accounting_from_trace_iff, recompute_accounting_from_trace-IsMismatch,
}

abbrev ended : ℕ → RunEvent ℕ
ended spent = final (record {
  run_id = "run";
  at = "t9";
  output = "done";
  cost = cost_of spent spent;
  transcript = record { entry_count = 0; last_entry_index = none };
  quality = none;
  evaluation = none;
  termination = none;
})

-- A finished child whose result says that it cost `spent`; its trace has a final cost of 9.
abbrev child : ℕ → RunEvent ℕ
unfolding create_run_metadata create_run_accounting
child spent =
    sub_run_completed
      (record {
        run_id = "run";
        parent_run_ids = none;
        at = "t5";
        child_run_id = "child";
        parent_run_id = "run";
        parent_decision_id = "0";
        parent_decision_array_index = 0;
      })
      (run_result
        (record {
          output = "done";
          transcript = [];
          usage = cost_of spent spent;
          metadata =
              create_run_metadata {F = ℕ} "child" Protocol.sequential BudgetTier.fast "model" [] [];
          accounting =
              create_run_accounting ⦃js = nano_js⦄ BudgetTier.fast none none (cost_of spent spent)
                [];
          cost = cost_of spent spent;
          quality = none;
          evaluation = none;
          health = record {
            anomalies = [];
            total_turns = 0;
            agent_count = 0;
            budget_utilization_pct = none;
          };
        })
        (trace_with (ended 9 ∷ [])) (of_list (ended 9 ∷ [])))

abbrev run_events : ℕ → List (RunEvent ℕ)
run_events spent = role_event "a" ∷ child spent ∷ turn_event "a" "x" 9 ∷ ended 9 ∷ []

abbrev family : ℕ → Trace ℕ
family spent = trace_with (run_events spent)

abbrev recompute : ℕ → Result (DogpileError ℕ) (RunAccounting ℕ)
recompute spent = recompute_accounting_from_trace ⦃js = nano_js⦄ (family spent)

family_passes : recompute 9 ≡ ok (local_of ⦃js = nano_js⦄ (family 9))
unfolding recompute_accounting_from_trace check_parent check_last_cost last_cost_bearing_event_cost
    first_bearing bearing throw_drift first_differing_field first_drift fields_equal
    read_numeric_field build_local_accounting create_run_accounting create_run_usage check_rollups
    check_rollup child check_totals check_child exceeds is_usage read_cost accumulate_from
    accumulate_sub_run_cost add_cost empty_cost
family_passes = refl

abbrev no_error : DogpileError ℕ
no_error = record {
  code = unknown;
  message = "";
  retryable = none;
  provider_id = none;
  detail = none;
}

abbrev error_of : Result (DogpileError ℕ) (RunAccounting ℕ) → DogpileError ℕ
error_of (ok a) = no_error
error_of (err e) = e

family_fails : recompute 5 ≡ err (error_of (recompute 5))
unfolding recompute_accounting_from_trace check_parent check_last_cost last_cost_bearing_event_cost
    first_bearing bearing throw_drift first_differing_field first_drift fields_equal
    read_numeric_field build_local_accounting create_run_accounting create_run_usage check_rollups
    check_rollup child check_totals check_child exceeds is_usage read_cost accumulate_from
    accumulate_sub_run_cost add_cost empty_cost
family_fails = refl

recompute_accounting_from_trace_iff_example :
    (recompute 9 ≡ ok (local_of ⦃js = nano_js⦄ (family 9))) ↔ IsConsistent ⦃js = nano_js⦄ (family 9)
recompute_accounting_from_trace_iff_example =
    recompute_accounting_from_trace_iff ⦃js = nano_js⦄ (family 9)

recompute_accounting_from_trace-IsMismatch_example :
    IsMismatch (error_of (recompute 5)) × (¬ IsConsistent ⦃js = nano_js⦄ (family 5))
recompute_accounting_from_trace-IsMismatch_example =
    recompute_accounting_from_trace-IsMismatch ⦃js = nano_js⦄ (family 5) (error_of (recompute 5))
      family_fails

create_replay_trace_budget_state_changes-last_example :
    last_of (map (λ c. c.cost) (create_replay_trace_budget_state_changes (run_events 9)))
    ≡ last_cost_bearing_event_cost (run_events 9)
create_replay_trace_budget_state_changes-last_example =
    create_replay_trace_budget_state_changes-last (run_events 9)

create_replay_trace_budget_state_changes_example :
    (map (λ c. c.cost) (create_replay_trace_budget_state_changes (run_events 9))
      ≡ bearing_costs (run_events 9))
    × All (IsChangeOf (run_events 9)) (create_replay_trace_budget_state_changes (run_events 9))
create_replay_trace_budget_state_changes_example =
    create_replay_trace_budget_state_changes_lem (run_events 9)
