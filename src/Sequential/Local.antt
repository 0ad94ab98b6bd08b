-- ===== src/Sequential/Local.antt =====
-- A sequential run (src/runtime/sequential.ts) starts no other run: none of its events is of a sub-run.
use dogpile.Base.{
  ℕ, suc, Bool, Option, String, List, [], ◌∷◌, ◌++◌, All, Js, Bool-cases, inl, inr, subst, sym, ◌≡◌,
  refl,
}
use dogpile.Base.Result.{Result, ok, err}
use dogpile.Data.Agent.{AgentSpec, AgentDecision, TranscriptEntry, TranscriptToolCall, ToolResult}
use dogpile.Data.Condition.{TerminationStopRecord}
use dogpile.Data.Error.{Thrown}
use dogpile.Data.Model.{ModelResponse, ToolExecutionRequest}
use dogpile.Data.Trace.{RunEvent, sub_run_completed, sub_run_failed}
use dogpile.ModelTurn.{TurnOptions, TurnOutcome, generate_model_turn, request_event, response_event}
use dogpile.ModelTurn.Shape.{IsChunk, Leaves, LeavesTurn, generate_model_turn-Leaves}
use dogpile.Replay.{DecisionOptions, no_options}
use dogpile.Tools.{
  ExecutorOptions, ExecutorState, execute, execute_requests, execute_model_response_tool_requests,
  call_event, result_event, tool_call_event, tool_result_event, completed_request, emit_result,
  after_request, with_call, transcript_call,
}
use dogpile.Sequential.{
  SequentialRunOptions, SequentialState, Point, before_turn, after_turn, after_tools, emit_decided,
  role_assigned, assign_roles, is_budget,
}
use dogpile.Sequential.Stop.{record_stop, budget_stop_event}
use dogpile.Sequential.Turn.{
  after_model, after_tools_state, finish_turn, turn_taken, use_tools, with_tools, answer, run_turn,
  turn_options,
}
use dogpile.Sequential.Steps.{Ends, proceed, anything, Keeps, unless_stopped-Ends}
use dogpile.Sequential.Run.{run_turns}

unfoldable pub IsLocal : {F : Type 0} → RunEvent F → Type 0
IsLocal (sub_run_completed ids r) = ⊥
IsLocal (sub_run_failed ids e t c) = ⊥
IsLocal e = Unit

pub All-append :
    {A : Type 0} (P : A → Type 0) (xs ys : List A) → All P xs → All P ys → All P (xs ++ ys)
All-append P [] ys p q = q
All-append P (x ∷ xs) ys (h, p) q = (h, All-append P xs ys p q)

All-map :
    {A : Type 0} (P Q : A → Type 0) (xs : List A) → ((x : A) → P x → Q x) → All P xs → All Q xs
All-map P Q [] f p = tt
All-map P Q (x ∷ xs) f (h, p) = (f x h, All-map P Q xs f p)

module _ {F : Type 0} where
  IsChunk-IsLocal : (e : RunEvent F) → IsChunk e → IsLocal e
  unfolding IsChunk IsLocal
  IsChunk-IsLocal (sub_run_completed ids r) h = cc
  IsChunk-IsLocal (sub_run_failed ids e t c) h = cc
  IsChunk-IsLocal e h = tt

  Leaves-IsLocal :
      (o : TurnOptions F) (out : TurnOutcome F) (r : Result (Thrown F) (ModelResponse F))
      → Leaves o (request_event o ∷ []) out r
      → All IsLocal out.events
  unfolding Leaves IsLocal request_event response_event
  Leaves-IsLocal o out (ok r) (t, chunks, all_chunks, events, calls) =
      subst (All IsLocal) (sym events) (
        tt,
        All-append IsLocal chunks _ (All-map IsChunk IsLocal chunks IsChunk-IsLocal all_chunks)
            (tt, tt),
      )
  Leaves-IsLocal o out (err e) (chunks, all_chunks, events, calls) =
      subst (All IsLocal) (sym events)
        (tt, All-map IsChunk IsLocal chunks IsChunk-IsLocal all_chunks)

  generate_model_turn-IsLocal : (o : TurnOptions F) → All IsLocal (generate_model_turn o).events
  unfolding LeavesTurn
  generate_model_turn-IsLocal o = elim (generate_model_turn-Leaves o) [
    | inl (events, calls, rest) ↦ subst (All IsLocal) (sym events) tt
    | inr leaves ↦ Leaves-IsLocal o (generate_model_turn o) _ leaves
  ]

  with_call-events :
      (call : TranscriptToolCall F)
      (rest : ExecutorState F × Result (Thrown F) (List (TranscriptToolCall F)))
      → (with_call call rest).0.events ≡ rest.0.events
  unfolding with_call
  with_call-events call (last, ok calls) = refl
  with_call-events call (last, err e) = refl

module _ {F : Type 0} ⦃js : Js F⦄ where
  after_request-IsLocal :
      (o : ExecutorOptions F) (st : ExecutorState F) (request full : ToolExecutionRequest F)
      (r : Result (Thrown F) (ToolResult F))
      (rest : ExecutorState F → ExecutorState F × Result (Thrown F) (List (TranscriptToolCall F)))
      → All IsLocal st.events
      → ((st : ExecutorState F) → All IsLocal st.events → All IsLocal (rest st).0.events)
      → All IsLocal (after_request request (emit_result o st full r) rest).0.events
  unfolding after_request emit_result call_event result_event tool_call_event tool_result_event
      IsLocal
  after_request-IsLocal o st request full (ok result) rest h local =
      subst (All IsLocal) (sym (with_call-events (transcript_call request result) _))
        (local _ (All-append IsLocal st.events _ h (tt, (tt, tt))))
  after_request-IsLocal o st request full (err e) rest h local =
      All-append IsLocal st.events _ h (tt, tt)

  execute_requests-IsLocal :
      (o : ExecutorOptions F) (transcript : List (TranscriptEntry F)) (agent_id role : String)
      (turn : ℕ) (st : ExecutorState F) (requests : List (ToolExecutionRequest F))
      → All IsLocal st.events
      → All IsLocal (execute_requests o transcript agent_id role turn st requests).0.events
  unfolding execute_requests execute
  execute_requests-IsLocal o transcript agent_id role turn st [] h = h
  execute_requests-IsLocal o transcript agent_id role turn st (request ∷ requests) h =
      after_request-IsLocal o st request (completed_request agent_id role turn request) _ _ h
        (λ after. execute_requests-IsLocal o transcript agent_id role turn after requests)

  pub emit_decided-IsLocal :
      (o : SequentialRunOptions F) (options : DecisionOptions) (e : RunEvent F)
      (st : SequentialState F)
      → IsLocal e
      → All IsLocal st.events
      → All IsLocal (emit_decided o options e st).events
  unfolding emit_decided
  emit_decided-IsLocal o options e st local h = All-append IsLocal st.events (e ∷ []) h (local, tt)

  pub assign_roles-IsLocal :
      (o : SequentialRunOptions F) (agents : List AgentSpec) (st : SequentialState F)
      → All IsLocal st.events
      → All IsLocal (assign_roles o agents st).events
  unfolding assign_roles role_assigned IsLocal
  assign_roles-IsLocal o [] st h = h
  assign_roles-IsLocal o (a ∷ agents) st h =
      assign_roles-IsLocal o agents _ (emit_decided-IsLocal o no_options _ st tt h)

  record_stop-IsLocal :
      (o : SequentialRunOptions F) (p : Point) (r : TerminationStopRecord F)
      (st : SequentialState F)
      → All IsLocal st.events
      → All IsLocal (record_stop o p r st).events
  unfolding record_stop budget_stop_event IsLocal
  record_stop-IsLocal o p r st h = elim (Bool-cases (is_budget r.reason)) [
    | inl b ↦ rw b (emit_decided-IsLocal o _ _ _ tt h)
    | inr b ↦ rw b h
  ]

  unfoldable pub StateLocal : SequentialState F → Type 0
  StateLocal st = All IsLocal st.events

  with_tools-Ends :
      (o : SequentialRunOptions F) (turn : ℕ) (agent : AgentSpec) (input : String)
      (response : ModelResponse F) (st : SequentialState F) (decision : Option (AgentDecision F))
      (ex : ExecutorState F) (r : Result (Thrown F) (List (TranscriptToolCall F)))
      → All IsLocal ex.events
      → Ends StateLocal (with_tools o turn agent input response st decision ex r)
  unfolding with_tools finish_turn after_tools_state turn_taken Ends StateLocal IsLocal
  with_tools-Ends o turn agent input response st decision ex (err e) h = tt
  with_tools-Ends o turn agent input response st decision ex (ok calls) h =
      proceed (λ u. Unit {0}) StateLocal (o.check (after_tools turn)) _ (anything _)
        (λ u v. emit_decided-IsLocal o _ _ _ tt h)

  use_tools-Ends :
      (o : SequentialRunOptions F) (turn : ℕ) (agent : AgentSpec) (input : String)
      (response : ModelResponse F) (st : SequentialState F) (decision : Option (AgentDecision F))
      → All IsLocal st.events
      → Ends StateLocal (use_tools o turn agent input response st decision)
  unfolding use_tools execute_model_response_tool_requests
  use_tools-Ends o turn agent input response st decision h =
      with_tools-Ends o turn agent input response st decision _ _ (
        execute_requests-IsLocal _ _ _ _ _
          (record { call_count = st.call_count; events = st.events }) _ h)

  answer-Ends :
      (o : SequentialRunOptions F) (turn : ℕ) (agent : AgentSpec) (input : String)
      (st : SequentialState F) (hinted : Bool) (out : TurnOutcome F)
      (r : Result (Thrown F) (ModelResponse F))
      → All IsLocal st.events
      → All IsLocal out.events
      → Ends StateLocal (answer o turn agent input st hinted out r)
  unfolding answer after_model Ends
  answer-Ends o turn agent input st hinted out (err e) h g = tt
  answer-Ends o turn agent input st hinted out (ok response) h g =
      proceed (λ d. Unit {0}) StateLocal _ _ (anything _)
        (λ d v.
          use_tools-Ends o turn agent input response (after_model st hinted out response) d
            (All-append IsLocal st.events out.events h g))

  run_turn-Ends :
      (o : SequentialRunOptions F) (turn : ℕ) (agent : AgentSpec) (st : SequentialState F)
      → All IsLocal st.events
      → Ends StateLocal (run_turn o turn agent st)
  unfolding run_turn
  run_turn-Ends o turn agent st h =
      answer-Ends o turn agent _ st _ _ _ h
        (generate_model_turn-IsLocal (turn_options o turn agent _ st))

  pub run_turns-Ends :
      (o : SequentialRunOptions F) (turn : ℕ) (agents : List AgentSpec) (st : SequentialState F)
      → All IsLocal st.events
      → Ends StateLocal (run_turns o turn agents st)
  unfolding run_turns Ends StateLocal Keeps
  run_turns-Ends o turn [] st h = h
  run_turns-Ends o turn (agent ∷ agents) st h =
      let keeps : Keeps StateLocal o = record_stop-IsLocal o in
      unless_stopped-Ends StateLocal StateLocal o (before_turn turn) st _ keeps h (λ st k. k)
        λ before at_start.
          proceed StateLocal StateLocal (run_turn o turn agent before) _
            (run_turn-Ends o turn agent before at_start)
            λ done at_end.
              unless_stopped-Ends StateLocal StateLocal o (after_turn turn) done _ keeps at_end
                (λ st k. k) (run_turns-Ends o (suc turn) agents)
