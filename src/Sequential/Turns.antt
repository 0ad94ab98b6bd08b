-- ===== src/Sequential/Turns.antt =====
-- Who speaks in a sequential run (src/runtime/sequential.ts), and that its events, its transcript and its
-- provider calls tell the same.
use mathlib.Core.List.{append-nil, append_assoc}
use dogpile.Audit.{turns_of}
use dogpile.Data.Event.{FinalEvent}
use dogpile.Base.{
  ap, length, map, ◌∙◌, ℕ, suc, some, List, [], ◌∷◌, ◌++◌, Js, ◌≡◌, refl, subst, sym,
}
use dogpile.Base.Result.{Result, ok, err}
use dogpile.Data.Agent.{AgentSpec}
use dogpile.Data.Model.{RunHealthSummary}
use dogpile.Data.Trace.{RunEvent, RunResult, trace_of, events_of, fields_of, result_fields, final}
use dogpile.Sequential.Integrity.{last_of-snoc, to_list-of_list}
use dogpile.Accounting.{last_of}
use dogpile.Sequential.{
  before_roles, before_final, active_agents, final_output, SequentialRunOptions, SequentialState,
  before_turn, after_turn, emit_decided, initial_state,
}
use dogpile.Sequential.Turn.{run_turn}
use dogpile.Sequential.Steps.{
  Ends, returned_value, weaken, proceed, anything, Keeps, unless_stopped-Ends,
}
use dogpile.Sequential.Run.{
  run_turns, final_event, with_final, trace_of_state, result_of_state, finish, run_sequential,
}
use dogpile.Sequential.Said.{
  speech, entry_speech, Said, turns_of-append, record_stop-Said, assign_roles-Said, run_turn-Said,
}

module _ {F : Type 0} ⦃js : Js F⦄ where
  -- After some of the agents, in order.
  pub SaidSome : List AgentSpec → List AgentSpec → SequentialState F → Type 0
  SaidSome done agents st =
      (some_agents rest : List AgentSpec) × (agents ≡ some_agents ++ rest)
      × Said (done ++ some_agents) st

  run_turns-Said :
      (o : SequentialRunOptions F) (turn : ℕ) (done agents : List AgentSpec)
      (st : SequentialState F)
      → Said done st
      → Ends (SaidSome done agents) (run_turns o turn agents st)
  unfolding run_turns Ends SaidSome Keeps
  run_turns-Said o turn done [] st h =
      ([], [], refl, subst (λ d. Said d st) (sym (append-nil done)) h)
  run_turns-Said o turn done (agent ∷ agents) st h =
      unless_stopped-Ends (Said done) (SaidSome done (agent ∷ agents)) o (before_turn turn) st _
        (record_stop-Said o done) h
        (λ st k. ([], agent ∷ agents, refl, subst (λ d. Said d st) (sym (append-nil done)) k))
        λ before at_start.
          proceed (Said (done ++ agent ∷ [])) (SaidSome done (agent ∷ agents))
            (run_turn o turn agent before) _ (run_turn-Said o turn agent done before at_start)
            λ after at_end.
              unless_stopped-Ends (Said (done ++ agent ∷ [])) (SaidSome done (agent ∷ agents)) o
                (after_turn turn) after _ (record_stop-Said o (done ++ agent ∷ [])) at_end
                (λ st k. (agent ∷ [], agents, refl, k))
                λ st k.
                  weaken (SaidSome (done ++ agent ∷ []) agents) (SaidSome done (agent ∷ agents)) _
                    (λ st (some_agents, rest, is, said). (
                      agent ∷ some_agents,
                      rest,
                      ap (λ xs. agent ∷ xs) is,
                      subst (λ d. Said d st) (append_assoc done (agent ∷ []) some_agents) said,
                    ))
                    (run_turns-Said o (suc turn) (done ++ agent ∷ []) agents st k)

  -- What the result of a run tells of it.
  pub Tells : SequentialRunOptions F → RunResult F → Type 0
  Tells o r =
      ((spoken rest : List AgentSpec) × (active_agents o ≡ spoken ++ rest)
        × (map (λ e. e.agent_id) (result_fields r).transcript ≡ map (λ a. a.id) spoken))
      × (map speech (turns_of (events_of (trace_of r)))
          ≡ map entry_speech (result_fields r).transcript)
      × (length (fields_of (trace_of r)).provider_calls ≡ length (result_fields r).transcript)
      × ((e : FinalEvent F) × (last_of (events_of (trace_of r)) ≡ some (final e))
          × (e.output ≡ (result_fields r).output)
          × (e.cost ≡ (result_fields r).cost))

  result_of_state-Tells :
      {E : Type 0} (o : SequentialRunOptions F) (st : SequentialState F)
      (h : Result E (RunHealthSummary F))
      → SaidSome [] (active_agents o) st
      → Ends (Tells o) (result_of_state o (final_output st.transcript) (with_final o st) h)
  unfolding result_of_state Ends Tells with_final emit_decided trace_of_state SaidSome Said
      final_event turns_of
  result_of_state-Tells o st (err e) s = tt
  result_of_state-Tells o st (ok health) (spoken, rest, is, (agents, same, calls)) =
      let fin : RunEvent F = final_event o (final_output st.transcript) st in
      (
        (spoken, rest, is, agents),
        ap (λ es. map speech (turns_of es)) (to_list-of_list (st.events ++ fin ∷ []))
            ∙ ap (map speech)
                (turns_of-append st.events (fin ∷ []) ∙ append-nil (turns_of st.events))
            ∙ same,
        calls,
        (
          _,
          ap last_of (to_list-of_list (st.events ++ fin ∷ [])) ∙ last_of-snoc st.events fin,
          refl,
          refl,
        ),
      )

  run_sequential-Ends : (o : SequentialRunOptions F) → Ends (Tells o) (run_sequential o)
  unfolding run_sequential finish Said initial_state turns_of
  run_sequential-Ends o =
      proceed (λ u. Unit {0}) (Tells o) (o.check before_roles) _ (anything _)
        λ u v.
          proceed (SaidSome [] (active_agents o)) (Tells o) _ (finish o)
            (run_turns-Said o 1 [] (active_agents o) _
              (assign_roles-Said o (active_agents o) initial_state (refl, refl, refl)))
            λ st some_said.
              proceed (λ u. Unit {0}) (Tells o) (o.check before_final) _ (anything _)
                λ u v. result_of_state-Tells o st _ some_said

  -- When a sequential run returns, the agents that spoke are a first part of the active agents, each once
  -- and in order; the events of the turns say what the transcript says, turn by turn; there is one
  -- provider call for each entry; and the last event is the final one, with the output and the cost of
  -- the result.
  pub run_sequential-Tells :
      (o : SequentialRunOptions F) (r : RunResult F) → run_sequential o ≡ ok r → Tells o r
  run_sequential-Tells o r e =
      returned_value (Tells o) (run_sequential o) r (run_sequential-Ends o) e
