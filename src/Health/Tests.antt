-- ===== src/Health/Tests.antt =====
-- Conditions on health summaries at concrete runs.
use dogpile.Base.{[], ◌∷◌, ℕ, some, ◌≡◌, refl}
use dogpile.Base.Result.{ok}
use dogpile.Data.Trace.{Trace, events_of}
use dogpile.Samples.{whole_js, turn_event, trace_with}
use dogpile.Audit.{create_audit_record, turns_of}
use dogpile.Health.{
  HealthThresholds, compute_health, summary_of, turn_count_of, assert_finite_non_negative,
  assert_budget_near_miss,
}
use dogpile.Health.Stats.{compute_health-create_audit_record}
use dogpile.Health.Flagged.{flagged, is_runaway, is_empty, blank_turns}
use dogpile.Health.Anomalies.{expected_runaway, compute_health-anomalies}

-- Agent "a" speaks twice, once with nothing to say.
abbrev chatty : Trace ℕ
chatty = trace_with (turn_event "a" "x" 1 ∷ turn_event "b" "y" 2 ∷ turn_event "a" "  " 3 ∷ [])

abbrev strict : HealthThresholds ℕ
strict = record { runaway_turns = some 1; budget_near_miss_pct = some 40 }

valid_thresholds : compute_health chatty strict ≡ ok (summary_of chatty strict)
unfolding compute_health assert_finite_non_negative assert_budget_near_miss
valid_thresholds = refl

compute_health-create_audit_record_example :
    ((summary_of chatty strict).total_turns ≡ (create_audit_record chatty).turn_count)
    × ((summary_of chatty strict).agent_count ≡ (create_audit_record chatty).agent_count)
compute_health-create_audit_record_example =
    compute_health-create_audit_record chatty strict (summary_of chatty strict) valid_thresholds

compute_health-anomalies_example :
    (flagged is_runaway "a" (summary_of chatty strict).anomalies
      ≡ expected_runaway {F = ℕ} (some 1) (turn_count_of "a" (turns_of (events_of chatty))))
    × (flagged is_empty "a" (summary_of chatty strict).anomalies
        ≡ blank_turns "a" (turns_of (events_of chatty)))
compute_health-anomalies_example =
    compute_health-anomalies chatty strict (summary_of chatty strict) "a" valid_thresholds
