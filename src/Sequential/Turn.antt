-- ===== src/Sequential/Turn.antt =====
-- One turn of `runSequential` of src/runtime/sequential.ts: the request with its hint, the answer of the
-- model, the decision, the tools, and the entry of the transcript with its event.
use dogpile.Base.{ℕ, Bool, Option, none, some, String, List, [], ◌∷◌, ◌++◌, drop, length, Js}
use dogpile.Base.Result.{Result, ok, err, ◌>>=◌, ◌>>◌}
use dogpile.Data.Json.{Json, str, num, obj, field}
use dogpile.Data.Cost.{add_cost}
use dogpile.Data.Agent.{Protocol, AgentSpec, AgentDecision, TranscriptEntry, TranscriptToolCall}
use dogpile.Data.Error.{DogpileError, Thrown, own}
use dogpile.Data.Model.{ModelMessage, MessageRole, ModelResponse}
use dogpile.Data.Trace.{RunEvent, agent_turn}
use dogpile.Decisions.{parse_agent_decision}
use dogpile.Decisions.Reading.{ParseContext}
use dogpile.ModelTurn.{TurnOptions, TurnOutcome, generate_model_turn}
use dogpile.Replay.{no_options, decisions_from, next_provider_call_id}
use dogpile.Tools.{ExecutorOptions, ExecutorState, execute_model_response_tool_requests}
use dogpile.Tools.Calls.{runtime_tool_availability}
use dogpile.WrapUp.Hint.{inject}
use dogpile.Sequential.{
  tier_name, build_system_prompt, build_sequential_input, controller_options, response_cost,
  emit_decided, after_tools, in_turn, SequentialRunOptions, SequentialState,
}
use dogpile.Sequential.Stop.{context_options}

unfoldable pub no_parse_context : ParseContext
no_parse_context = record { current_depth = none; max_depth = none; parent_provider_id = none }

module _ {F : Type 0} ⦃js : Js F⦄ where
  unfoldable pub request_metadata : SequentialRunOptions F → ℕ → AgentSpec → Json F
  request_metadata o turn agent = obj (
      field "runId" (str o.run_id) (
        field "protocol" (str "sequential") (
          field "agentId" (str agent.id) (
            field "role" (str agent.role) (
              field "tier" (str (tier_name o.tier))
                (field "turn" (num (js.of_nat turn)) (runtime_tool_availability o.tools)))))))

  unfoldable pub messages_of : SequentialRunOptions F → AgentSpec → String → List ModelMessage
  messages_of o agent input =
      record { role = MessageRole.system; content = build_system_prompt agent }
      ∷ record { role = MessageRole.user; content = input }
      ∷ []

  unfoldable pub hinted_messages :
      SequentialRunOptions F → ℕ → AgentSpec → String → SequentialState F → List ModelMessage × Bool
  hinted_messages o turn agent input st =
      inject (controller_options o) st.hinted (messages_of o agent input)
        (context_options o (in_turn turn 0) none none st)

  unfoldable pub turn_options :
      SequentialRunOptions F → ℕ → AgentSpec → String → SequentialState F → TurnOptions F
  turn_options o turn agent input st = record {
    model = o.model;
    request = record {
      messages = (hinted_messages o turn agent input st).0;
      temperature = o.temperature;
      metadata = request_metadata o turn agent;
    };
    run_id = o.run_id;
    agent = agent;
    input = input;
    call_id = next_provider_call_id o.run_id st.provider_calls;
    at = o.turn_at turn;
    check = λ n. o.check (in_turn turn n);
    copy_json = o.copy_json;
  }

  unfoldable pub executor_options : SequentialRunOptions F → ExecutorOptions F
  executor_options o = record {
    run_id = o.run_id;
    protocol = Protocol.sequential;
    tier = o.tier;
    tools = o.tools;
    at = o.event_at;
  }

  -- The state with the events, the call and the cost of a model turn that answered.
  unfoldable pub after_model :
      SequentialState F → Bool → TurnOutcome F → ModelResponse F → SequentialState F
  after_model st hinted out response = record st {
    events = st.events ++ out.events;
    provider_calls = st.provider_calls ++ out.calls;
    total_cost = add_cost st.total_cost (response_cost response);
    hinted = hinted;
  }

  -- `toolCalls` where there are any.
  unfoldable pub calls_unless_none :
      List (TranscriptToolCall F) → Option (List (TranscriptToolCall F))
  calls_unless_none [] = none
  calls_unless_none (c ∷ cs) = some (c ∷ cs)

  unfoldable pub entry_of :
      AgentSpec
      → String
      → ModelResponse F
      → Option (AgentDecision F)
      → List (TranscriptToolCall F)
      → TranscriptEntry F
  entry_of agent input response decision calls = record {
    agent_id = agent.id;
    role = agent.role;
    input = input;
    output = response.text;
    decision = decision;
    tool_calls = calls_unless_none calls;
  }

  unfoldable pub turn_taken :
      SequentialRunOptions F
      → AgentSpec
      → String
      → ModelResponse F
      → Option (AgentDecision F)
      → SequentialState F
      → RunEvent F
  turn_taken o agent input response decision st = agent_turn (record {
    run_id = o.run_id;
    parent_run_ids = none;
    at = o.event_at (length st.events);
    agent_id = agent.id;
    role = agent.role;
    input = input;
    output = response.text;
    decision = decision;
    cost = st.total_cost;
  })

  -- The executor emits each event with a decision.
  unfoldable pub after_tools_state :
      SequentialRunOptions F → SequentialState F → ExecutorState F → SequentialState F
  after_tools_state o st ex = record st {
    events = ex.events;
    protocol_decisions =
        st.protocol_decisions
        ++ decisions_from o.stringify Protocol.sequential (length st.events)
            (drop (length st.events) ex.events);
    call_count = ex.call_count;
  }

  unfoldable pub finish_turn :
      SequentialRunOptions F
      → ℕ
      → AgentSpec
      → String
      → ModelResponse F
      → Option (AgentDecision F)
      → List (TranscriptToolCall F)
      → SequentialState F
      → SequentialState F
  finish_turn o turn agent input response decision calls st =
      let said = record st {
        transcript = st.transcript ++ entry_of agent input response decision calls ∷ [];
      } in
      emit_decided o
        (record no_options {
          turn = some turn;
          transcript_entry_count = some (length said.transcript);
        })
        (turn_taken o agent input response decision said) said

  -- After the tools: a thrown error, or the check and the entry and the event of the turn.
  unfoldable pub with_tools :
      SequentialRunOptions F
      → ℕ
      → AgentSpec
      → String
      → ModelResponse F
      → SequentialState F
      → Option (AgentDecision F)
      → ExecutorState F
      → Result (Thrown F) (List (TranscriptToolCall F))
      → Result (Thrown F) (SequentialState F)
  with_tools o turn agent input response st decision ex (err e) = err e
  with_tools o turn agent input response st decision ex (ok calls) =
      o.check (after_tools turn)
      >> ok (finish_turn o turn agent input response decision calls (after_tools_state o st ex))

  -- The tools of a response and what follows them.
  unfoldable pub use_tools :
      SequentialRunOptions F
      → ℕ
      → AgentSpec
      → String
      → ModelResponse F
      → SequentialState F
      → Option (AgentDecision F)
      → Result (Thrown F) (SequentialState F)
  use_tools o turn agent input response st decision =
      let used =
        execute_model_response_tool_requests (executor_options o) st.transcript agent.id agent.role
          turn (record { call_count = st.call_count; events = st.events }) response in
      with_tools o turn agent input response st decision used.0 used.1

  unfoldable pub as_thrown : {A : Type 0} → Result (DogpileError F) A → Result (Thrown F) A
  as_thrown (ok a) = ok a
  as_thrown (err e) = err (own e)

  unfoldable pub answer :
      SequentialRunOptions F
      → ℕ
      → AgentSpec
      → String
      → SequentialState F
      → Bool
      → TurnOutcome F
      → Result (Thrown F) (ModelResponse F)
      → Result (Thrown F) (SequentialState F)
  answer o turn agent input st hinted out (err e) = err e
  answer o turn agent input st hinted out (ok response) =
      as_thrown (parse_agent_decision o.texts no_parse_context response.text)
      >>= use_tools o turn agent input response (after_model st hinted out response)

  unfoldable pub run_turn :
      SequentialRunOptions F
      → ℕ
      → AgentSpec
      → SequentialState F
      → Result (Thrown F) (SequentialState F)
  run_turn o turn agent st =
      let input = build_sequential_input o.intent st.transcript in
      let out = generate_model_turn (turn_options o turn agent input st) in
      answer o turn agent input st (hinted_messages o turn agent input st).1 out out.result
