-- ===== src/Health/Stats.antt =====
-- The statistics of the health summary against the audit record of the same trace.
use dogpile.Base.{
  String, List, [], ◌∷◌, ◌++◌, map, Js, str_eq, length, has_string, add_all, if◌then◌else◌, ◌≡◌,
  refl, sym, ◌∙◌, ap, arith, Bool-cases, inl, inr,
}
use dogpile.Base.Result.{ok, after_check, ok_injective}
use dogpile.Data.Event.{TurnEvent}
use dogpile.Data.Model.{RunHealthSummary}
use dogpile.Data.Trace.{Trace, events_of}
use dogpile.Audit.{AuditAgentRecord, create_audit_record, turns_of, count_turn, count_turns}
use dogpile.Health.{
  HealthThresholds, compute_health, summary_of, assert_finite_non_negative, assert_budget_near_miss,
}

abbrev ids : List AuditAgentRecord → List String
ids rs = map (λ a. a.id) rs

module _ {F : Type 0} where
  ids-count_turn :
      (t : TurnEvent F) (rs : List AuditAgentRecord)
      → ids (count_turn t rs)
        ≡ (if has_string t.agent_id (ids rs) then ids rs else ids rs ++ t.agent_id ∷ [])
  unfolding count_turn
  ids-count_turn t [] = refl
  ids-count_turn t (a ∷ rs) = elim (Bool-cases (str_eq a.id t.agent_id)) [
    | inl e ↦ rw e refl
    | inr e ↦ elim (Bool-cases (has_string t.agent_id (ids rs))) [
      | inl h ↦ rw (e, h) (ap (λ xs. a.id ∷ xs) (ids-count_turn t rs ∙ rw h refl))
      | inr h ↦ rw (e, h) (ap (λ xs. a.id ∷ xs) (ids-count_turn t rs ∙ rw h refl))
    ]
  ]

  ids-count_turns :
      (ts : List (TurnEvent F)) (rs : List AuditAgentRecord)
      → ids (count_turns ts rs) ≡ add_all (ids rs) (map (λ t. t.agent_id) ts)
  unfolding count_turns
  ids-count_turns [] rs = refl
  ids-count_turns (t ∷ ts) rs =
      ids-count_turns ts (count_turn t rs)
      ∙ ap (λ xs. add_all xs (map (λ e. e.agent_id) ts)) (ids-count_turn t rs)

length-ids : (rs : List AuditAgentRecord) → length (ids rs) ≡ length rs
length-ids [] = refl
length-ids (a ∷ rs) = omega (arith, length-ids rs)

module _ {F : Type 0} ⦃js : Js F⦄ where
  -- A summary that is returned is the one that follows the two checks.
  pub returned_summary :
      (t : Trace F) (thresholds : HealthThresholds F) (s : RunHealthSummary F)
      → compute_health t thresholds ≡ ok s
      → summary_of t thresholds ≡ s
  unfolding compute_health
  returned_summary t thresholds s e = ok_injective (
      after_check (assert_budget_near_miss thresholds.budget_near_miss_pct) _ s (
        after_check
          (assert_finite_non_negative thresholds.runaway_turns
            "runawayTurns must be a finite non-negative number")
          _ s e))

  -- Where the thresholds are valid, the health summary of a trace and its audit record agree on the
  -- number of turns and on the number of agents, which one counts as a set of ids and the other as
  -- the keys of a map.
  pub compute_health-create_audit_record :
      (t : Trace F) (thresholds : HealthThresholds F) (s : RunHealthSummary F)
      → compute_health t thresholds ≡ ok s
      → (s.total_turns ≡ (create_audit_record t).turn_count)
        × (s.agent_count ≡ (create_audit_record t).agent_count)
  unfolding create_audit_record summary_of
  compute_health-create_audit_record t thresholds s e =
      let same = returned_summary t thresholds s e in
      let turns = turns_of (events_of t) in
      (
        sym (ap (λ x. x.total_turns) same),
        sym (ap (λ x. x.agent_count) same)
            ∙ sym (ap length (ids-count_turns turns []))
            ∙ length-ids (count_turns turns []),
      )
