-- ===== src/Accounting/Changes.antt =====
-- The changes of the budget against the events they are made from.
use dogpile.Base.{
  or_else, or_else_assoc, or_else-none, ℕ, suc, ◌+◌, Option, none, some, List, [], ◌∷◌, ◌++◌, map,
  reverse, All, get_elem?, ◌≡◌, refl, sym, subst, ap, ◌∙◌, arith,
}
use mathlib.Core.List.{reverse-cons}
use dogpile.Data.Cost.{CostSummary}
use dogpile.Data.Replay.{BudgetStateChange}
use dogpile.Data.Trace.{RunEvent, type_of, agent_turn, final, budget_stop, broadcast}
use dogpile.Accounting.{
  last_of, budget_state_change, changes_from, create_replay_trace_budget_state_changes,
  event_timestamp, bearing, first_bearing, last_cost_bearing_event_cost,
}

module _ {F : Type 0} where
  abbrev or_last : List (CostSummary F) → Option (CostSummary F) → List (CostSummary F)
  or_last cs none = cs
  or_last cs (some c) = c ∷ cs

  -- The costs that the events bear, in order.
  unfoldable pub bearing_costs : List (RunEvent F) → List (CostSummary F)
  bearing_costs [] = []
  bearing_costs (e ∷ es) = or_last (bearing_costs es) (bearing e)

  change_cost :
      (i : ℕ) (e : RunEvent F) (cs : List (BudgetStateChange F))
      → map (λ c. c.cost) (budget_state_change i e ++ cs)
        ≡ or_last (map (λ c. c.cost) cs) (bearing e)
  unfolding budget_state_change bearing
  change_cost i (agent_turn e) cs = refl
  change_cost i (broadcast e) cs = refl
  change_cost i (final e) cs = refl
  change_cost i (budget_stop e) cs = refl
  change_cost i e cs = refl

  changes_from-cost :
      (i : ℕ) (es : List (RunEvent F)) → map (λ c. c.cost) (changes_from i es) ≡ bearing_costs es
  unfolding changes_from bearing_costs
  changes_from-cost i [] = refl
  changes_from-cost i (e ∷ es) =
      change_cost i e (changes_from (suc i) es)
      ∙ ap (λ cs. or_last cs (bearing e)) (changes_from-cost (suc i) es)

  first_bearing-snoc :
      (es : List (RunEvent F)) (e : RunEvent F)
      → first_bearing (es ++ e ∷ []) ≡ or_else (first_bearing es) (bearing e)
  unfolding first_bearing
  first_bearing-snoc [] e = or_else-none (bearing e)
  first_bearing-snoc (x ∷ es) e =
      ap (or_else (bearing x)) (first_bearing-snoc es e)
      ∙ or_else_assoc (bearing x) (first_bearing es) (bearing e)

  last_of-or_last :
      (cs : List (CostSummary F)) (o : Option (CostSummary F))
      → last_of (or_last cs o) ≡ or_else (last_of cs) o
  last_of-or_last [] none = refl
  last_of-or_last [] (some c) = refl
  last_of-or_last (x ∷ cs) none = sym (or_else-none (last_of (x ∷ cs)))
  last_of-or_last (x ∷ []) (some c) = refl
  last_of-or_last (x ∷ (y ∷ cs)) (some c) = last_of-or_last (y ∷ cs) (some c)

  first_bearing-reverse :
      (es : List (RunEvent F)) → first_bearing (reverse es) ≡ last_of (bearing_costs es)
  unfolding bearing_costs first_bearing
  first_bearing-reverse [] = refl
  first_bearing-reverse (e ∷ es) =
      ap first_bearing (reverse-cons e es)
      ∙ first_bearing-snoc (reverse es) e
      ∙ ap (λ o. or_else o (bearing e)) (first_bearing-reverse es)
      ∙ sym (last_of-or_last (bearing_costs es) (bearing e))

  -- The last change of the budget has the cost that the search from the last event back finds.
  pub create_replay_trace_budget_state_changes-last :
      (es : List (RunEvent F))
      → last_of (map (λ c. c.cost) (create_replay_trace_budget_state_changes es))
        ≡ last_cost_bearing_event_cost es
  unfolding create_replay_trace_budget_state_changes last_cost_bearing_event_cost
  create_replay_trace_budget_state_changes-last es =
      ap last_of (changes_from-cost 0 es) ∙ sym (first_bearing-reverse es)

  -- The event that a change stands for.
  pub IsChangeOf : List (RunEvent F) → BudgetStateChange F → Type 0
  IsChangeOf es c =
      (e : RunEvent F) × (get_elem? es c.event_index ≡ some e)
      × (type_of e ≡ c.event_type)
      × (event_timestamp e ≡ c.at)
      × (bearing e ≡ some c.cost)

  own_change :
      (xs : List (RunEvent F)) (i : ℕ) (e : RunEvent F) (cs : List (BudgetStateChange F))
      → get_elem? xs i ≡ some e
      → All (IsChangeOf xs) cs
      → All (IsChangeOf xs) (budget_state_change i e ++ cs)
  unfolding IsChangeOf budget_state_change event_timestamp bearing
  own_change xs i (agent_turn e) cs h rest = ((agent_turn e, h, refl, refl, refl), rest)
  own_change xs i (broadcast e) cs h rest = ((broadcast e, h, refl, refl, refl), rest)
  own_change xs i (final e) cs h rest = ((final e, h, refl, refl, refl), rest)
  own_change xs i (budget_stop e) cs h rest = ((budget_stop e, h, refl, refl, refl), rest)
  own_change xs i e cs h rest = rest

  changes_from-IsChangeOf :
      (xs : List (RunEvent F)) (i : ℕ) (es : List (RunEvent F))
      → ((j : ℕ) → get_elem? xs (i + j) ≡ get_elem? es j)
      → All (IsChangeOf xs) (changes_from i es)
  unfolding changes_from
  changes_from-IsChangeOf xs i [] at_i = tt
  changes_from-IsChangeOf xs i (e ∷ es) at_i =
      own_change xs i e (changes_from (suc i) es)
        (subst (λ n. get_elem? xs n ≡ some e) (omega arith) (at_i 0))
        (changes_from-IsChangeOf xs (suc i) es
          (λ j. subst (λ n. get_elem? xs n ≡ get_elem? es j) (omega arith) (at_i (suc j))))

  -- The changes of the budget have the costs that the events bear, one for each such event and in
  -- order, and each has the type and the time of the event at its index.
  pub create_replay_trace_budget_state_changes_lem :
      (es : List (RunEvent F))
      → (map (λ c. c.cost) (create_replay_trace_budget_state_changes es) ≡ bearing_costs es)
        × All (IsChangeOf es) (create_replay_trace_budget_state_changes es)
  unfolding create_replay_trace_budget_state_changes
  create_replay_trace_budget_state_changes_lem es = (
    changes_from-cost 0 es,
    changes_from-IsChangeOf es 0 es (λ j. ap (get_elem? es) (omega arith)),
  )
