-- ===== src/Health/Flagged.antt =====
-- The anomalies about one agent, and those for turns with a blank output.
use dogpile.Base.{
  ℕ, ◌+◌, Bool, true, false, ◌&&◌, Option, none, some, String, List, [], ◌∷◌, ◌++◌, map, str_eq,
  trim, if◌then◌else◌, ◌≡◌, refl, ap, arith, Bool-cases, inl, inr,
}
use dogpile.Data.Event.{TurnEvent}
use dogpile.Data.Model.{
  AnomalyCode, HealthAnomaly, runaway_turns, budget_near_miss, empty_contribution,
  provider_error_recovered,
}
use dogpile.Health.{turn_count_of, empty_contributions}
use dogpile.Health.Ids.{one_if, occurrences}

abbrev pub about : Option String → String → Bool
about none agent = false
about (some id) agent = str_eq id agent

abbrev pub is_runaway : AnomalyCode → Bool
is_runaway runaway_turns = true
is_runaway budget_near_miss = false
is_runaway empty_contribution = false
is_runaway provider_error_recovered = false

abbrev pub is_empty : AnomalyCode → Bool
is_empty runaway_turns = false
is_empty budget_near_miss = false
is_empty empty_contribution = true
is_empty provider_error_recovered = false

pub and_false : (b : Bool) → b && false ≡ false
and_false true = refl
and_false false = refl

pub tally :
    (o b : Bool) (n m : ℕ)
    → m ≡ (if o then n else 0)
    → one_if (o && b) + m ≡ (if o then one_if b + n else 0)
tally true b n m h = omega (arith, h)
tally false b n m h = omega (arith, h)

module _ {F : Type 0} where
  -- The turns of an agent, counted in two ways.
  pub occurrences-turns :
      (agent : String) (turns : List (TurnEvent F))
      → occurrences agent (map (λ e. e.agent_id) turns) ≡ turn_count_of agent turns
  unfolding turn_count_of
  occurrences-turns agent [] = refl
  occurrences-turns agent (t ∷ turns) = elim (Bool-cases (str_eq t.agent_id agent)) [
    | inl e ↦ rw e (omega (arith, occurrences-turns agent turns))
    | inr e ↦ rw e (omega (arith, occurrences-turns agent turns))
  ]

  -- The anomalies about an agent whose code passes a test.
  abbrev pub flagged : (AnomalyCode → Bool) → String → List (HealthAnomaly F) → ℕ
  flagged p agent [] = 0
  flagged p agent (a ∷ rest) = one_if (p a.code && about a.agent_id agent) + flagged p agent rest

  pub flagged-append :
      (p : AnomalyCode → Bool) (agent : String) (xs ys : List (HealthAnomaly F))
      → flagged p agent (xs ++ ys) ≡ flagged p agent xs + flagged p agent ys
  flagged-append p agent [] ys = omega arith
  flagged-append p agent (x ∷ xs) ys = omega (arith, flagged-append p agent xs ys)

  -- The turns of an agent with nothing but white space in them.
  abbrev pub blank_turns : String → List (TurnEvent F) → ℕ
  blank_turns agent [] = 0
  blank_turns agent (t ∷ turns) =
      one_if (str_eq (trim t.output) "" && str_eq t.agent_id agent) + blank_turns agent turns

  pub flagged-empty_contributions :
      (agent : String) (zero_value : F) (turns : List (TurnEvent F))
      → flagged is_empty agent (empty_contributions zero_value turns) ≡ blank_turns agent turns
  unfolding empty_contributions
  flagged-empty_contributions agent z [] = refl
  flagged-empty_contributions agent z (t ∷ turns) = elim (Bool-cases (str_eq (trim t.output) "")) [
    | inl e ↦
        rw e (
          ap (λ n. one_if (str_eq t.agent_id agent) + n)
            (flagged-empty_contributions agent z turns))
    | inr e ↦ rw e (omega (arith, flagged-empty_contributions agent z turns))
  ]

  pub runaway_free :
      (agent : String) (zero_value : F) (turns : List (TurnEvent F))
      → flagged is_runaway agent (empty_contributions zero_value turns) ≡ 0
  unfolding empty_contributions
  runaway_free agent z [] = refl
  runaway_free agent z (t ∷ turns) = elim (Bool-cases (str_eq (trim t.output) "")) [
    | inl e ↦ rw e (omega (arith, runaway_free agent z turns))
    | inr e ↦ rw e (runaway_free agent z turns)
  ]
