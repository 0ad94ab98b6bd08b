-- ===== src/Health.antt =====
-- `computeHealth` of src/runtime/health.ts.
pub mod Stats
mod Ids
pub mod Flagged
pub mod Anomalies
mod Tests
use dogpile.Base.{
  ℕ, Bool, true, false, not, ◌||◌, ◌&&◌, Option, none, some, String, List, [], ◌∷◌, ◌++◌, map, Js,
  str_eq, length, filter, set_of, trim, if◌then◌else◌,
}
use dogpile.Base.Result.{Result, ok, err, ◌>>◌}
use dogpile.Data.Agent.{BudgetCaps}
use dogpile.Data.Event.{TurnEvent}
use dogpile.Data.Model.{
  AnomalyCode, HealthAnomaly, RunHealthSummary, runaway_turns, budget_near_miss, empty_contribution,
  warning, error,
}
use dogpile.Data.Trace.{Trace, fields_of, events_of}
use dogpile.Termination.Evaluate.{RangeError, range_error}
use dogpile.Audit.{turns_of}

pub record HealthThresholds (F : Type 0) : Type 0 where
  pub runaway_turns : Option F
  pub budget_near_miss_pct : Option F

abbrev pub default_health_thresholds : {F : Type 0} → HealthThresholds F
default_health_thresholds = record { runaway_turns = none; budget_near_miss_pct = none }

module _ {F : Type 0} where
  max_usd_of : Option (BudgetCaps F) → Option F
  max_usd_of none = none
  max_usd_of (some caps) = caps.max_usd

  -- The turns of one agent.
  unfoldable pub turn_count_of : String → List (TurnEvent F) → ℕ
  turn_count_of agent turns = length (filter (λ t. str_eq t.agent_id agent) turns)

  pub empty_contributions : F → List (TurnEvent F) → List (HealthAnomaly F)
  empty_contributions zero_value [] = []
  empty_contributions zero_value (t ∷ turns) =
      let rest = empty_contributions zero_value turns in
      if str_eq (trim t.output) ""
      then record {
        code = empty_contribution;
        severity = error;
        value = zero_value;
        threshold = zero_value;
        agent_id = some t.agent_id;
      }
        ∷ rest
      else rest

module _ {F : Type 0} ⦃js : Js F⦄ where
  -- `x === 0`.
  is_zero : F → Bool
  is_zero x = js.le x (js.of_nat 0) && js.le (js.of_nat 0) x

  unfoldable pub assert_finite_non_negative : Option F → String → Result RangeError (Unit {0})
  assert_finite_non_negative none message = ok tt
  assert_finite_non_negative (some value) message =
      if not (js.is_finite value) || js.lt value (js.of_nat 0)
      then err (range_error message)
      else ok tt

  unfoldable pub at_most_100 : Option F → Result RangeError (Unit {0})
  at_most_100 none = ok tt
  at_most_100 (some value) =
      if js.lt (js.of_nat 100) value
      then err (range_error "budgetNearMissPct must be between 0 and 100")
      else ok tt

  unfoldable pub assert_budget_near_miss : Option F → Result RangeError (Unit {0})
  unfolding assert_finite_non_negative at_most_100
  assert_budget_near_miss value =
      assert_finite_non_negative value "budgetNearMissPct must be a finite non-negative number"
      >> at_most_100 value

  budget_utilization_pct : Option F → F → Option F
  unfolding is_zero
  budget_utilization_pct none final_cost = none
  budget_utilization_pct (some max_usd) final_cost = some (
      if is_zero max_usd
      then if is_zero final_cost then js.of_nat 0 else js.of_nat 100
      else js.mul (js.div final_cost max_usd) (js.of_nat 100))

  runaway_agents : F → List String → List (TurnEvent F) → List (HealthAnomaly F)
  runaway_agents threshold [] turns = []
  runaway_agents threshold (agent ∷ agents) turns =
      let rest = runaway_agents threshold agents turns in
      let count = js.of_nat (turn_count_of agent turns) in
      if js.lt threshold count
      then record {
        code = runaway_turns;
        severity = error;
        value = count;
        threshold = threshold;
        agent_id = some agent;
      }
        ∷ rest
      else rest

  runaway_anomalies : Option F → List String → List (TurnEvent F) → List (HealthAnomaly F)
  unfolding runaway_agents
  runaway_anomalies none agents turns = []
  runaway_anomalies (some threshold) agents turns = runaway_agents threshold agents turns

  near_miss : Option F → Option F → List (HealthAnomaly F)
  near_miss none pct = []
  near_miss (some threshold) none = []
  near_miss (some threshold) (some pct) =
      if js.le threshold pct
      then record {
        code = budget_near_miss;
        severity = warning;
        value = pct;
        threshold = threshold;
        agent_id = none;
      }
        ∷ []
      else []

  -- What follows the two checks.
  unfoldable pub summary_of : Trace F → HealthThresholds F → RunHealthSummary F
  unfolding max_usd_of budget_utilization_pct runaway_anomalies near_miss empty_contributions
  summary_of t thresholds =
      let fields = fields_of t in
      let turns = turns_of (events_of t) in
      let agents = set_of (map (λ e. e.agent_id) turns) in
      let pct =
        budget_utilization_pct (max_usd_of fields.budget.caps) fields.final_output.cost.usd in
      record {
        anomalies =
            runaway_anomalies thresholds.runaway_turns agents turns
            ++ near_miss thresholds.budget_near_miss_pct pct
            ++ empty_contributions (js.of_nat 0) turns;
        total_turns = length turns;
        agent_count = length agents;
        budget_utilization_pct = pct;
      }

  unfoldable pub compute_health :
      Trace F → HealthThresholds F → Result RangeError (RunHealthSummary F)
  unfolding summary_of
  compute_health t thresholds =
      assert_finite_non_negative thresholds.runaway_turns
        "runawayTurns must be a finite non-negative number"
      >> (assert_budget_near_miss thresholds.budget_near_miss_pct >> ok (summary_of t thresholds))
