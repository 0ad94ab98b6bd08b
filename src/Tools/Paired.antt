-- ===== src/Tools/Paired.antt =====
-- The events and the transcript calls of the tool requests of one turn (src/runtime/tools.ts).
use mathlib.Core.List.{append-nil, append_assoc}
use dogpile.Base.{map, find, ap, Bool, true, false, Option, some, ◌⊎◌, inl, inr, if◌then◌else◌}
use dogpile.Base.Result.{◌>>=◌}
use dogpile.Data.Json.{Json}
use dogpile.Data.Agent.{ToolIdentity}
use dogpile.Tools.Calls.{RuntimeTool, ExecutionContext, issues_of, execute_runtime_tool}
use dogpile.Tools.{result_of, find_tool}
use dogpile.Base.{
  ℕ, zero, suc, ◌<◌, ◌+◌, length, get_or, String, List, [], ◌∷◌, ◌++◌, Js, ◌≡◌, refl, sym, ◌∙◌,
  arith,
}
use dogpile.Data.Agent.{TranscriptEntry, TranscriptToolCall, ToolResult}
use dogpile.Data.Model.{ToolExecutionRequest, ModelResponse}
use dogpile.Base.Result.{Result, ok, err}
use dogpile.Data.Error.{Thrown}
use dogpile.Data.Trace.{RunEvent, tool_call, tool_result}
use dogpile.Tools.{
  ExecutorOptions, ExecutorState, execute, completed_request, call_event, result_event,
  tool_call_event, tool_result_event, transcript_call, execute_requests,
  execute_model_response_tool_requests, emit_result, with_call, after_request,
}

module _ {F : Type 0} where
  -- Each call event is followed at once by the result event with its id and its tool, and the pair
  -- stands for the entry of the transcript with the same input and result.
  unfoldable pub Paired : List (RunEvent F) → List (TranscriptToolCall F) → Type 0
  Paired [] [] = Unit
  Paired (tool_call c ∷ (tool_result r ∷ es)) (t ∷ ts) =
      (c.tool_call_id ≡ r.tool_call_id)
      × (c.tool ≡ r.tool)
      × (c.input ≡ t.input)
      × (r.result ≡ t.result)
      × Paired es ts
  Paired es ts = ⊥

  -- As far as the executor came before a validator threw: pairs of events, and the last call alone.
  unfoldable pub BrokenOff : List (RunEvent F) → ℕ → Type 0
  BrokenOff (tool_call c ∷ []) zero = Unit
  BrokenOff (tool_call c ∷ (tool_result r ∷ es)) (suc n) =
      (c.tool_call_id ≡ r.tool_call_id) × (c.tool ≡ r.tool) × BrokenOff es n
  BrokenOff es n = ⊥

  -- The validator of one of the tools throws the error, on some input.
  unfoldable pub SomeThrows : List (RuntimeTool F) → Thrown F → Type 0
  SomeThrows [] e = ⊥
  SomeThrows (t ∷ ts) e =
      ((input : Json F) × (issues_of t.validate_input input ≡ err e)) ⊎ SomeThrows ts e

  -- What requests to the tools add to the state, and the calls of the transcript or the thrown error.
  unfoldable pub Adds :
      List (RuntimeTool F)
      → ExecutorState F
      → List (ToolExecutionRequest F)
      → ExecutorState F
      → Result (Thrown F) (List (TranscriptToolCall F))
      → Type 0
  Adds tools st requests last (ok calls) =
      (last.call_count ≡ st.call_count + length requests)
      × (map (λ c. c.input) calls ≡ map (λ r. r.input) requests)
      × ((new : List (RunEvent F)) × (last.events ≡ st.events ++ new) × Paired new calls)
  Adds tools st requests last (err e) =
      (done : ℕ) × (done < length requests)
      × (last.call_count ≡ st.call_count + suc done)
      × SomeThrows tools e
      × ((new : List (RunEvent F)) × (last.events ≡ st.events ++ new) × BrokenOff new done)

  of_validation :
      {A B : Type 0} (m : Result (Thrown F) A) (f : A → B) (e : Thrown F)
      → (m >>= λ a. ok (f a)) ≡ err e
      → m ≡ err e
  of_validation (ok a) f e h = cc
  of_validation (err x) f e h = cc

  choose :
      (found : Bool) (tool : RuntimeTool F) (tools : List (RuntimeTool F))
      (rest : Option (RuntimeTool F)) (identity : ToolIdentity) (n : ℕ) (input : Json F)
      (context : ExecutionContext F) (e : Thrown F)
      → (execute_runtime_tool rest identity n input context ≡ err e → SomeThrows tools e)
      → execute_runtime_tool (if found then some tool else rest) identity n input context ≡ err e
      → SomeThrows (tool ∷ tools) e
  unfolding execute_runtime_tool SomeThrows
  choose true tool tools rest identity n input context e next h =
      inl (input, of_validation (issues_of tool.validate_input input) _ e h)
  choose false tool tools rest identity n input context e next h = inr (next h)

  -- What leaves the executor is what a validator threw.
  found-SomeThrows :
      (p : RuntimeTool F → Bool) (tools : List (RuntimeTool F)) (identity : ToolIdentity) (n : ℕ)
      (input : Json F) (context : ExecutionContext F) (e : Thrown F)
      → execute_runtime_tool (find p tools) identity n input context ≡ err e
      → SomeThrows tools e
  unfolding execute_runtime_tool
  found-SomeThrows p [] identity n input context e h = cc
  found-SomeThrows p (t ∷ ts) identity n input context e h =
      choose (p t) t ts (find p ts) identity n input context e
        (found-SomeThrows p ts identity n input context e) h

module _ {F : Type 0} ⦃js : Js F⦄ where
  -- One more request before the others.
  with_call-Adds :
      (o : ExecutorOptions F) (st : ExecutorState F) (request full : ToolExecutionRequest F)
      (result : ToolResult F) (requests : List (ToolExecutionRequest F))
      (rest : ExecutorState F × Result (Thrown F) (List (TranscriptToolCall F)))
      → full.input ≡ request.input
      → Adds o.tools (emit_result o st full (ok result)).0 requests rest.0 rest.1
      → Adds o.tools st
          (request ∷ requests)
          (with_call (transcript_call request result) rest).0
          (with_call (transcript_call request result) rest).1
  unfolding with_call Adds Paired BrokenOff emit_result call_event result_event tool_call_event
      tool_result_event transcript_call
  with_call-Adds o st request full result requests (last, ok calls) same
        (count, number, (new, events, paired)) =
      (
        omega (arith, count),
        ap (λ xs. request.input ∷ xs) number,
        (
          call_event o st full ∷ (result_event o st full result ∷ new),
          events
              ∙ append_assoc st.events (call_event o st full ∷ result_event o st full result ∷ [])
                  new,
          (refl, refl, same, refl, paired),
        ),
      )
  with_call-Adds o st request full result requests (last, err e) same
        (done, less, count, throws, (new, events, broken)) =
      (
        suc done,
        omega (arith, less),
        omega (arith, count),
        throws,
        (
          call_event o st full ∷ (result_event o st full result ∷ new),
          events
              ∙ append_assoc st.events (call_event o st full ∷ result_event o st full result ∷ [])
                  new,
          (refl, refl, broken),
        ),
      )

  after_request-Adds :
      (o : ExecutorOptions F) (st : ExecutorState F) (request full : ToolExecutionRequest F)
      (requests : List (ToolExecutionRequest F)) (r : Result (Thrown F) (ToolResult F))
      (rest : ExecutorState F → ExecutorState F × Result (Thrown F) (List (TranscriptToolCall F)))
      → full.input ≡ request.input
      → ((e : Thrown F) → r ≡ err e → SomeThrows o.tools e)
      → ((st : ExecutorState F) → Adds o.tools st requests (rest st).0 (rest st).1)
      → Adds o.tools st
          (request ∷ requests)
          (after_request request (emit_result o st full r) rest).0
          (after_request request (emit_result o st full r) rest).1
  unfolding after_request emit_result Adds BrokenOff call_event tool_call_event
  after_request-Adds o st request full requests (ok result) rest same throws adds =
      with_call-Adds o st request full result requests _ same (adds _)
  after_request-Adds o st request full requests (err e) rest same throws adds =
      (0, omega arith, omega arith, throws e refl, (call_event o st full ∷ [], refl, tt))

  execute_requests-Adds :
      (o : ExecutorOptions F) (transcript : List (TranscriptEntry F)) (agent_id role : String)
      (turn : ℕ) (st : ExecutorState F) (requests : List (ToolExecutionRequest F))
      → Adds o.tools st requests
          (execute_requests o transcript agent_id role turn st requests).0
          (execute_requests o transcript agent_id role turn st requests).1
  unfolding execute_requests Adds Paired execute completed_request result_of find_tool
  execute_requests-Adds o transcript agent_id role turn st [] =
      (omega arith, refl, ([], sym (append-nil st.events), tt))
  execute_requests-Adds o transcript agent_id role turn st (request ∷ requests) =
      after_request-Adds o st request (completed_request agent_id role turn request) requests _ _
        refl (λ e h. found-SomeThrows _ o.tools _ _ _ _ e h)
        (λ after. execute_requests-Adds o transcript agent_id role turn after requests)

  -- The requests of a response are executed in order, and an error leaves the executor only where the
  -- validator of one of its tools throws it. Without one, each request gives a result, also where its
  -- tool is not registered, refuses the input or throws: the calls are counted one by one, the entries of
  -- the transcript have the inputs of the requests in order, and each call event is followed at once by
  -- a result event with the same id and tool and the result of the entry. Where a validator throws, the
  -- requests before it have their pairs of events, its own has the call event alone, and no request
  -- after it is begun.
  pub execute_model_response_tool_requests-Adds :
      (o : ExecutorOptions F) (transcript : List (TranscriptEntry F)) (agent_id role : String)
      (turn : ℕ) (st : ExecutorState F) (response : ModelResponse F)
      → Adds o.tools st
          (get_or response.tool_requests [])
          (execute_model_response_tool_requests o transcript agent_id role turn st response).0
          (execute_model_response_tool_requests o transcript agent_id role turn st response).1
  unfolding execute_model_response_tool_requests
  execute_model_response_tool_requests-Adds o transcript agent_id role turn st response =
      execute_requests-Adds o transcript agent_id role turn st (get_or response.tool_requests [])
