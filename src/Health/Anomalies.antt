-- ===== src/Health/Anomalies.antt =====
-- Which anomalies the health summary has.
use dogpile.Base.{
  ℕ, ◌+◌, min, Bool, false, ◌&&◌, Option, none, some, String, List, [], ◌∷◌, ◌++◌, map, Js, str_eq,
  str_eq_iff, set_of, if◌then◌else◌, ◌≡◌, refl, sym, ◌∙◌, ap, arith, Bool-cases, inl, inr,
}
use dogpile.Base.Result.{ok}
use dogpile.Data.Event.{TurnEvent}
use dogpile.Data.Model.{AnomalyCode, RunHealthSummary, budget_near_miss}
use dogpile.Data.Trace.{Trace, fields_of, events_of}
use dogpile.Audit.{turns_of}
use dogpile.Health.{
  HealthThresholds, compute_health, summary_of, turn_count_of, runaway_anomalies, runaway_agents,
  near_miss, empty_contributions, budget_utilization_pct, max_usd_of,
}
use dogpile.Health.Ids.{one_if, occurrences, occurrences-set_of}
use dogpile.Health.Flagged.{
  is_runaway, is_empty, flagged, flagged-append, blank_turns, flagged-empty_contributions,
  runaway_free, and_false, tally, occurrences-turns,
}
use dogpile.Health.Stats.{returned_summary}

module _ {F : Type 0} ⦃js : Js F⦄ where
  flagged-near_miss :
      (p : AnomalyCode → Bool) (agent : String) (threshold pct : Option F)
      → p budget_near_miss ≡ false
      → flagged p agent (near_miss threshold pct) ≡ 0
  unfolding near_miss
  flagged-near_miss p agent none pct h = refl
  flagged-near_miss p agent (some x) none h = refl
  flagged-near_miss p agent (some x) (some y) h = elim (Bool-cases (js.le x y)) [
    | inl e ↦ rw (e, h) refl
    | inr e ↦ rw e refl
  ]

  empty_free :
      (agent : String) (threshold : F) (agents : List String) (turns : List (TurnEvent F))
      → flagged is_empty agent (runaway_agents threshold agents turns) ≡ 0
  unfolding runaway_agents
  empty_free agent x [] turns = refl
  empty_free agent x (a ∷ agents) turns =
      elim (Bool-cases (js.lt x (js.of_nat (turn_count_of a turns)))) [
        | inl e ↦ rw e (omega (arith, empty_free agent x agents turns))
        | inr e ↦ rw e (empty_free agent x agents turns)
      ]

  -- The turns of an agent are above a threshold.
  abbrev pub over : F → List (TurnEvent F) → String → Bool
  over threshold turns agent = js.lt threshold (js.of_nat (turn_count_of agent turns))

  same_agent :
      (x : F) (turns : List (TurnEvent F)) (a agent : String)
      → over x turns a && str_eq a agent ≡ over x turns agent && str_eq a agent
  same_agent x turns a agent = elim (Bool-cases (str_eq a agent)) [
    | inl e ↦ ap (λ y. over x turns y && str_eq a agent) ((str_eq_iff a agent).0 e)
    | inr e ↦ rw e (and_false (over x turns a) ∙ sym (and_false (over x turns agent)))
  ]

  flagged-head :
      (agent : String) (x : F) (a : String) (agents : List String) (turns : List (TurnEvent F))
      → flagged is_runaway agent (runaway_agents x (a ∷ agents) turns)
        ≡ one_if (over x turns a && str_eq a agent)
          + flagged is_runaway agent (runaway_agents x agents turns)
  unfolding runaway_agents
  flagged-head agent x a agents turns = elim (Bool-cases (over x turns a)) [
    | inl e ↦ rw e refl
    | inr e ↦ rw e (omega arith)
  ]

  flagged-runaway_agents :
      (agent : String) (x : F) (agents : List String) (turns : List (TurnEvent F))
      → flagged is_runaway agent (runaway_agents x agents turns)
        ≡ (if over x turns agent then occurrences agent agents else 0)
  unfolding runaway_agents
  flagged-runaway_agents agent x [] turns = elim (Bool-cases (over x turns agent)) [
    | inl e ↦ rw e refl
    | inr e ↦ rw e refl
  ]
  flagged-runaway_agents agent x (a ∷ agents) turns =
      flagged-head agent x a agents turns
      ∙ ap (λ b. one_if b + flagged is_runaway agent (runaway_agents x agents turns))
          (same_agent x turns a agent)
      ∙ tally (over x turns agent) (str_eq a agent) (occurrences agent agents) _
          (flagged-runaway_agents agent x agents turns)

  -- How many runaway anomalies there are about an agent with so many turns.
  abbrev pub expected_runaway : Option F → ℕ → ℕ
  expected_runaway none turns = 0
  expected_runaway (some threshold) turns =
      if js.lt threshold (js.of_nat turns) then min 1 turns else 0

  flagged-runaway_anomalies :
      (agent : String) (o : Option F) (turns : List (TurnEvent F))
      → flagged is_runaway agent (runaway_anomalies o (set_of (map (λ e. e.agent_id) turns)) turns)
        ≡ expected_runaway o (turn_count_of agent turns)
  unfolding runaway_anomalies
  flagged-runaway_anomalies agent none turns = refl
  flagged-runaway_anomalies agent (some x) turns =
      flagged-runaway_agents agent x (set_of (map (λ e. e.agent_id) turns)) turns
      ∙ ap (λ n. if over x turns agent then n else 0)
          (occurrences-set_of agent (map (λ e. e.agent_id) turns)
            ∙ ap (min 1) (occurrences-turns agent turns))

  empty_free_all :
      (agent : String) (o : Option F) (agents : List String) (turns : List (TurnEvent F))
      → flagged is_empty agent (runaway_anomalies o agents turns) ≡ 0
  unfolding runaway_anomalies
  empty_free_all agent none agents turns = refl
  empty_free_all agent (some x) agents turns = empty_free agent x agents turns

  runaway_only :
      (agent : String) (o n pct : Option F) (z : F) (agents : List String)
      (turns : List (TurnEvent F))
      → flagged is_runaway agent
          (runaway_anomalies o agents turns ++ near_miss n pct ++ empty_contributions z turns)
        ≡ flagged is_runaway agent (runaway_anomalies o agents turns)
  runaway_only agent o n pct z agents turns = omega (
    arith,
    flagged-append is_runaway agent (runaway_anomalies o agents turns ++ near_miss n pct)
        (empty_contributions z turns),
    flagged-append is_runaway agent (runaway_anomalies o agents turns) (near_miss n pct),
    flagged-near_miss is_runaway agent n pct refl,
    runaway_free agent z turns,
  )

  empty_only :
      (agent : String) (o n pct : Option F) (z : F) (agents : List String)
      (turns : List (TurnEvent F))
      → flagged is_empty agent
          (runaway_anomalies o agents turns ++ near_miss n pct ++ empty_contributions z turns)
        ≡ blank_turns agent turns
  empty_only agent o n pct z agents turns = omega (
    arith,
    flagged-append is_empty agent (runaway_anomalies o agents turns ++ near_miss n pct)
        (empty_contributions z turns),
    flagged-append is_empty agent (runaway_anomalies o agents turns) (near_miss n pct),
    flagged-near_miss is_empty agent n pct refl,
    empty_free_all agent o agents turns,
    flagged-empty_contributions agent z turns,
  )

  -- Where the thresholds are valid: about each agent the summary has one runaway anomaly if the agent
  -- has a turn and more turns than the threshold, and none if it has not or there is no threshold;
  -- and it has as many empty-contribution anomalies as the agent has turns with a blank output.
  pub compute_health-anomalies :
      (t : Trace F) (thresholds : HealthThresholds F) (s : RunHealthSummary F) (agent : String)
      → compute_health t thresholds ≡ ok s
      → let turns = turns_of (events_of t) in
        (flagged is_runaway agent s.anomalies
          ≡ expected_runaway thresholds.runaway_turns (turn_count_of agent turns))
        × (flagged is_empty agent s.anomalies ≡ blank_turns agent turns)
  unfolding summary_of
  compute_health-anomalies t thresholds s agent e =
      let same = returned_summary t thresholds s e in
      let turns = turns_of (events_of t) in
      let agents = set_of (map (λ e. e.agent_id) turns) in
      let fields = fields_of t in
      let pct =
        budget_utilization_pct (max_usd_of fields.budget.caps) fields.final_output.cost.usd in
      let o = thresholds.runaway_turns in
      let n = thresholds.budget_near_miss_pct in
      (
        sym (ap (λ x. flagged is_runaway agent x.anomalies) same)
            ∙ runaway_only agent o n pct (js.of_nat 0) agents turns
            ∙ flagged-runaway_anomalies agent o turns,
        sym (ap (λ x. flagged is_empty agent x.anomalies) same)
            ∙ empty_only agent o n pct (js.of_nat 0) agents turns,
      )
