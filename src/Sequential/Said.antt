-- ===== src/Sequential/Said.antt =====
-- What an answer of the model and the tools of a turn add to what has been said in a sequential run
-- (src/runtime/sequential.ts).
use mathlib.Core.List.{map-append, append-nil}
use dogpile.Audit.{turns_of}
use dogpile.Data.Event.{TurnEvent}
use dogpile.Tools.Paired.{Paired, Adds, execute_model_response_tool_requests-Adds}
use dogpile.Base.{
  ap, length, length-append, map, ◌∙◌, arith, ℕ, suc, Bool, true, Option, some, String, List, [],
  ◌∷◌, ◌++◌, All, Js, Bool-cases, inl, inr, ◌≡◌, refl, subst, sym,
}
use dogpile.Base.Result.{Result, ok, err}
use dogpile.Data.Agent.{AgentSpec, AgentDecision, TranscriptEntry, TranscriptToolCall}
use dogpile.Data.Condition.{TerminationStopRecord}
use dogpile.Data.Error.{Thrown}
use dogpile.Data.Model.{ModelResponse}
use dogpile.Data.Trace.{RunEvent, agent_turn, tool_call, tool_result}
use dogpile.ModelTurn.{TurnOptions, TurnOutcome, request_event, response_event}
use dogpile.ModelTurn.Shape.{IsChunk, Leaves, LeavesTurn, generate_model_turn-Leaves}
use dogpile.Replay.{DecisionOptions, no_options}
use dogpile.Data.Model.{ToolExecutionRequest}
use dogpile.Tools.Calls.{RuntimeTool}
use dogpile.Tools.{ExecutorState}
use dogpile.Sequential.{
  SequentialRunOptions, SequentialState, Point, after_tools, emit_decided, role_assigned,
  assign_roles, is_budget,
}
use dogpile.Sequential.Stop.{record_stop, budget_stop_event}
use dogpile.Sequential.Turn.{
  after_model, after_tools_state, finish_turn, turn_taken, entry_of, executor_options, use_tools,
  with_tools, answer, run_turn, turn_options,
}
use dogpile.Sequential.Steps.{Ends, proceed, anything}

ok_err : {E A : Type 0} {r : Result E A} {a : A} {e : E} → r ≡ ok a → r ≡ err e → ⊥
ok_err p q = cc

module _ {F : Type 0} where
  -- Who said what, of an event of a turn and of an entry of the transcript.
  abbrev pub speech : TurnEvent F → String × String
  speech t = (t.agent_id, t.output)

  abbrev pub entry_speech : TranscriptEntry F → String × String
  entry_speech e = (e.agent_id, e.output)

  pub turns_of-append :
      (es fs : List (RunEvent F)) → turns_of (es ++ fs) ≡ turns_of es ++ turns_of fs
  unfolding turns_of
  turns_of-append [] fs = refl
  turns_of-append (agent_turn t ∷ es) fs = ap (λ ts. t ∷ ts) (turns_of-append es fs)
  turns_of-append (e ∷ es) fs = turns_of-append es fs

  turns_of-IsChunk : (es : List (RunEvent F)) → All IsChunk es → turns_of es ≡ []
  unfolding turns_of IsChunk
  turns_of-IsChunk [] h = refl
  turns_of-IsChunk (agent_turn t ∷ es) (h, hs) = cc
  turns_of-IsChunk (e ∷ es) (h, hs) = turns_of-IsChunk es hs

  -- A model turn that answers has one call and no event of a turn.
  Leaves-answer :
      (o : TurnOptions F) (out : TurnOutcome F) (r : ModelResponse F)
      → Leaves o (request_event o ∷ []) out (ok r)
      → (turns_of out.events ≡ []) × (length out.calls ≡ 1)
  unfolding Leaves turns_of request_event response_event
  Leaves-answer o out r (t, chunks, all_chunks, events, calls) = (
    ap turns_of events
        ∙ turns_of-append chunks (response_event o t r ∷ [])
        ∙ ap (λ ts. ts ++ []) (turns_of-IsChunk chunks all_chunks),
    ap length calls,
  )

  answered :
      (o : TurnOptions F) (out : TurnOutcome F) (r : ModelResponse F)
      → LeavesTurn o out
      → out.result ≡ ok r
      → (turns_of out.events ≡ []) × (length out.calls ≡ 1)
  unfolding LeavesTurn
  answered o out r (inl (events, calls, (e, c, failed_turn))) h = elim (ok_err h failed_turn) [ ]
  answered o out r (inr leaves) h =
      Leaves-answer o out r (subst (Leaves o (request_event o ∷ []) out) h leaves)

  turns_of-Paired :
      (es : List (RunEvent F)) (calls : List (TranscriptToolCall F))
      → Paired es calls
      → turns_of es ≡ []
  unfolding turns_of Paired
  turns_of-Paired [] calls h = refl
  turns_of-Paired (tool_call c ∷ (tool_result r ∷ es)) (t ∷ ts) (i, j, k, l, h) =
      turns_of-Paired es ts h
  turns_of-Paired (e ∷ es) calls h = elim h [ ]

module _ {F : Type 0} ⦃js : Js F⦄ where
  -- The agents that have spoken, in order, and that the transcript, the events and the calls agree.
  unfoldable pub Said : List AgentSpec → SequentialState F → Type 0
  Said done st =
      (map (λ e. e.agent_id) st.transcript ≡ map (λ a. a.id) done)
      × (map speech (turns_of st.events) ≡ map entry_speech st.transcript)
      × (length st.provider_calls ≡ length st.transcript)

  -- An event that is not of a turn.
  emit_decided-Said :
      (o : SequentialRunOptions F) (options : DecisionOptions) (e : RunEvent F)
      (done : List AgentSpec) (st : SequentialState F)
      → turns_of (e ∷ []) ≡ []
      → Said done st
      → Said done (emit_decided o options e st)
  unfolding emit_decided Said
  emit_decided-Said o options e done st quiet (agents, same, calls) = (
    agents,
    ap (map speech) (
          turns_of-append st.events (e ∷ [])
          ∙ ap (λ ts. turns_of st.events ++ ts) quiet
          ∙ append-nil (turns_of st.events))
        ∙ same,
    calls,
  )

  pub record_stop-Said :
      (o : SequentialRunOptions F) (done : List AgentSpec) (p : Point) (r : TerminationStopRecord F)
      (st : SequentialState F)
      → Said done st
      → Said done (record_stop o p r st)
  unfolding record_stop budget_stop_event turns_of Said
  record_stop-Said o done p r st h = elim (Bool-cases (is_budget r.reason)) [
    | inl b ↦
        rw b
          (emit_decided-Said o _ _ done (record st { stopped = true; termination = some r }) refl h)
    | inr b ↦ rw b h
  ]

  pub assign_roles-Said :
      (o : SequentialRunOptions F) (agents : List AgentSpec) (st : SequentialState F)
      → Said [] st
      → Said [] (assign_roles o agents st)
  unfolding assign_roles role_assigned turns_of
  assign_roles-Said o [] st h = h
  assign_roles-Said o (a ∷ agents) st h =
      assign_roles-Said o agents _ (emit_decided-Said o no_options _ [] st refl h)

  -- A state in which the model has answered and the entry of the turn is yet to come.
  Answered : List AgentSpec → SequentialState F → Type 0
  Answered done st =
      (map (λ e. e.agent_id) st.transcript ≡ map (λ a. a.id) done)
      × (map speech (turns_of st.events) ≡ map entry_speech st.transcript)
      × (length st.provider_calls ≡ suc (length st.transcript))

  finish_turn-Said :
      (o : SequentialRunOptions F) (turn : ℕ) (agent : AgentSpec) (input : String)
      (response : ModelResponse F) (decision : Option (AgentDecision F))
      (calls : List (TranscriptToolCall F)) (done : List AgentSpec) (st : SequentialState F)
      → Answered done st
      → Said (done ++ agent ∷ []) (finish_turn o turn agent input response decision calls st)
  unfolding finish_turn turn_taken emit_decided entry_of Said Answered turns_of
  finish_turn-Said o turn agent input response decision calls done st (agents, same, number) =
      let entry : TranscriptEntry F = entry_of agent input response decision calls in
      let said : String × String = (agent.id, response.text) in
      (
        map-append (λ e. e.agent_id) st.transcript (entry ∷ [])
            ∙ ap (λ ids. ids ++ agent.id ∷ []) agents
            ∙ sym (map-append (λ a. a.id) done (agent ∷ [])),
        ap (map speech) (turns_of-append st.events _)
            ∙ map-append speech (turns_of st.events) _
            ∙ ap (λ xs. xs ++ said ∷ []) same
            ∙ sym (map-append entry_speech st.transcript (entry ∷ [])),
        omega (arith, number, length-append st.transcript (entry ∷ [])),
      )

  after_tools_state-Answered :
      (o : SequentialRunOptions F) (done : List AgentSpec) (st : SequentialState F)
      (tools : List (RuntimeTool F)) (requests : List (ToolExecutionRequest F))
      (ex : ExecutorState F) (calls : List (TranscriptToolCall F))
      → Adds tools
          (record { call_count = st.call_count; events = st.events })
          requests
          ex
          (ok calls)
      → Answered done st
      → Answered done (after_tools_state o st ex)
  unfolding after_tools_state Answered Adds
  after_tools_state-Answered o done st tools requests ex calls
        (count, number, (new, events, paired)) (agents, same, provider) =
      (
        agents,
        ap (λ es. map speech (turns_of es)) events
            ∙ ap (map speech) (
                turns_of-append st.events new
                ∙ ap (λ ts. turns_of st.events ++ ts) (turns_of-Paired new calls paired)
                ∙ append-nil (turns_of st.events))
            ∙ same,
        provider,
      )

  with_tools-Said :
      (o : SequentialRunOptions F) (turn : ℕ) (agent : AgentSpec) (input : String)
      (response : ModelResponse F) (done : List AgentSpec) (st : SequentialState F)
      (decision : Option (AgentDecision F)) (tools : List (RuntimeTool F))
      (requests : List (ToolExecutionRequest F)) (ex : ExecutorState F)
      (r : Result (Thrown F) (List (TranscriptToolCall F)))
      → Adds tools (record { call_count = st.call_count; events = st.events }) requests ex r
      → Answered done st
      → Ends (Said (done ++ agent ∷ [])) (with_tools o turn agent input response st decision ex r)
  unfolding with_tools Ends
  with_tools-Said o turn agent input response done st decision tools requests ex (err e) adds h = tt
  with_tools-Said o turn agent input response done st decision tools requests ex (ok calls) adds h =
      proceed (λ u. Unit {0}) (Said (done ++ agent ∷ [])) (o.check (after_tools turn)) _
        (anything _)
        (λ u v.
          finish_turn-Said o turn agent input response decision calls done _
            (after_tools_state-Answered o done st tools requests ex calls adds h))

  use_tools-Said :
      (o : SequentialRunOptions F) (turn : ℕ) (agent : AgentSpec) (input : String)
      (response : ModelResponse F) (done : List AgentSpec) (st : SequentialState F)
      (decision : Option (AgentDecision F))
      → Answered done st
      → Ends (Said (done ++ agent ∷ [])) (use_tools o turn agent input response st decision)
  unfolding use_tools
  use_tools-Said o turn agent input response done st decision h =
      with_tools-Said o turn agent input response done st decision _ _ _ _
        (execute_model_response_tool_requests-Adds (executor_options o) st.transcript agent.id
          agent.role turn (record { call_count = st.call_count; events = st.events }) response)
        h

  after_model-Answered :
      (done : List AgentSpec) (st : SequentialState F) (hinted : Bool) (out : TurnOutcome F)
      (response : ModelResponse F)
      → Said done st
      → turns_of out.events ≡ []
      → length out.calls ≡ 1
      → Answered done (after_model st hinted out response)
  unfolding after_model Answered Said
  after_model-Answered done st hinted out response (agents, same, calls) quiet one = (
    agents,
    ap (map speech) (
          turns_of-append st.events out.events
          ∙ ap (λ ts. turns_of st.events ++ ts) quiet
          ∙ append-nil (turns_of st.events))
        ∙ same,
    omega (arith, calls, one, length-append st.provider_calls out.calls),
  )

  answer-Said :
      (o : SequentialRunOptions F) (turn : ℕ) (agent : AgentSpec) (input : String)
      (done : List AgentSpec) (st : SequentialState F) (hinted : Bool) (t : TurnOptions F)
      (out : TurnOutcome F) (r : Result (Thrown F) (ModelResponse F))
      → Said done st
      → LeavesTurn t out
      → out.result ≡ r
      → Ends (Said (done ++ agent ∷ [])) (answer o turn agent input st hinted out r)
  unfolding answer Ends
  answer-Said o turn agent input done st hinted t out (err e) h leaves is = tt
  answer-Said o turn agent input done st hinted t out (ok response) h leaves is =
      let (quiet, one) = answered t out response leaves is in
      proceed (λ d. Unit {0}) (Said (done ++ agent ∷ [])) _ _ (anything _)
        (λ d v.
          use_tools-Said o turn agent input response done (after_model st hinted out response) d
            (after_model-Answered done st hinted out response h quiet one))

  pub run_turn-Said :
      (o : SequentialRunOptions F) (turn : ℕ) (agent : AgentSpec) (done : List AgentSpec)
      (st : SequentialState F)
      → Said done st
      → Ends (Said (done ++ agent ∷ [])) (run_turn o turn agent st)
  unfolding run_turn
  run_turn-Said o turn agent done st h =
      answer-Said o turn agent _ done st _ (turn_options o turn agent _ st) _ _ h
        (generate_model_turn-Leaves (turn_options o turn agent _ st)) refl
