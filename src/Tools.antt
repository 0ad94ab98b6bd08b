-- ===== src/Tools.antt =====
-- The tool executor of src/runtime/tools.ts, with `normalizeRuntimeToolAdapterError` of
-- src/runtime/tools/built-in.ts. Its state is the number of calls so far. The tools are the caller's:
-- what one returns or throws may depend on the number of the call. Only its
-- validator runs outside the `try`: what it throws leaves the executor, after the event of the call.
pub mod Calls
pub mod Paired
pub mod Answered
mod Tests
use Prim.Native.String.{◌++◌ as str_append}
use dogpile.Base.{
  ℕ, suc, true, false, Option, none, some, String, List, [], ◌∷◌, ◌++◌, map, find, or_else, get_or,
  Js, str_eq, if◌then◌else◌, length,
}
use dogpile.Base.Result.{Result, ok, err}
use dogpile.Data.Json.{Json, Items, Fields, null, str, arr, obj, nil, cons, end, field}
use dogpile.Data.Agent.{
  Protocol, BudgetTier, ToolIdentity, ToolError, ToolResult, success, failure, TranscriptEntry,
  TranscriptToolCall,
}
use dogpile.Data.Model.{ToolExecutionRequest, ModelResponse}
use dogpile.Data.Event.{ToolCallEvent, ToolResultEvent}
use dogpile.Data.Error.{Thrown}
use dogpile.Data.Trace.{RunEvent, tool_call, tool_result}
use dogpile.Decisions.Reading.{filled}
use dogpile.Tools.Calls.{ExecutionContext, RuntimeTool, merge_tool_metadata, execute_runtime_tool}

-- `at` is the time of the event after the given number of events.
pub record ExecutorOptions (F : Type 0) : Type 0 where
  pub run_id : String
  pub protocol : Protocol
  pub tier : BudgetTier
  pub tools : List (RuntimeTool F)
  pub at : ℕ → String

-- The number of calls and the events of the run so far, and what a call returns with them.
pub record ExecutorState (F : Type 0) : Type 0 where
  pub call_count : ℕ
  pub events : List (RunEvent F)

-- The protocols give no `makeToolCallId`.
unfoldable pub default_tool_call_id : (ℕ → String) → String → ℕ → String
default_tool_call_id show_nat run_id call_index =
    str_append run_id (str_append ":tool-" (show_nat (suc call_index)))

module _ {F : Type 0} where
  unfoldable pub identity_of : Option (RuntimeTool F) → String → ToolIdentity
  identity_of (some tool) id = tool.identity
  identity_of none id = record {
    id = id;
    name = id;
    namespace = none;
    version = none;
    description = none;
  }

  unfoldable pub find_tool : List (RuntimeTool F) → String → Option (RuntimeTool F)
  find_tool tools id = find (λ t. str_eq t.identity.id id) tools

  unfoldable pub tool_call_event :
      ExecutorOptions F → ℕ → String → ToolIdentity → ToolExecutionRequest F → RunEvent F
  tool_call_event o n tool_call_id identity request = tool_call (record {
    run_id = o.run_id;
    parent_run_ids = none;
    at = o.at n;
    tool_call_id = tool_call_id;
    tool = identity;
    input = request.input;
    agent_id = filled request.agent_id;
    role = filled request.role;
  })

  unfoldable pub tool_result_event :
      ExecutorOptions F
      → ℕ
      → String
      → ToolIdentity
      → ToolExecutionRequest F
      → ToolResult F
      → RunEvent F
  tool_result_event o n tool_call_id identity request result = tool_result (record {
    run_id = o.run_id;
    parent_run_ids = none;
    at = o.at n;
    tool_call_id = tool_call_id;
    tool = identity;
    result = result;
    agent_id = filled request.agent_id;
    role = filled request.role;
  })

  -- The executor's own metadata is not used by the protocols.
  unfoldable pub create_execution_context :
      ExecutorOptions F
      → List (RunEvent F)
      → List (TranscriptEntry F)
      → ToolExecutionRequest F
      → String
      → ExecutionContext F
  create_execution_context o events transcript request tool_call_id = record {
    run_id = o.run_id;
    tool_call_id = tool_call_id;
    protocol = o.protocol;
    tier = o.tier;
    agent_id = filled request.agent_id;
    role = filled request.role;
    turn = request.turn;
    events = events;
    transcript = transcript;
    metadata = elim request.metadata [
      | none ↦ none
      | some m ↦ some (merge_tool_metadata none (some m))
    ];
  }

  unfoldable pub with_call :
      TranscriptToolCall F
      → ExecutorState F × Result (Thrown F) (List (TranscriptToolCall F))
      → ExecutorState F × Result (Thrown F) (List (TranscriptToolCall F))
  with_call call (last, ok calls) = (last, ok (call ∷ calls))
  with_call call (last, err e) = (last, err e)

module _ {F : Type 0} ⦃js : Js F⦄ where
  unfoldable pub call_id : ExecutorOptions F → ExecutorState F → ToolExecutionRequest F → String
  call_id o st request =
      get_or request.tool_call_id (default_tool_call_id js.show_nat o.run_id st.call_count)

  unfoldable pub requested_identity : ExecutorOptions F → ToolExecutionRequest F → ToolIdentity
  requested_identity o request = identity_of (find_tool o.tools request.tool_id) request.tool_id

  unfoldable pub call_event :
      ExecutorOptions F → ExecutorState F → ToolExecutionRequest F → RunEvent F
  call_event o st request =
      tool_call_event o (length st.events) (call_id o st request) (requested_identity o request)
        request

  -- The trace in the context is the run's own array, which has the call by the time the tool runs.
  unfoldable pub result_of :
      ExecutorOptions F
      → List (TranscriptEntry F)
      → ExecutorState F
      → ToolExecutionRequest F
      → Result (Thrown F) (ToolResult F)
  result_of o transcript st request =
      execute_runtime_tool (find_tool o.tools request.tool_id) (requested_identity o request)
        st.call_count request.input
        (create_execution_context o (st.events ++ call_event o st request ∷ []) transcript request
          (call_id o st request))

  unfoldable pub result_event :
      ExecutorOptions F → ExecutorState F → ToolExecutionRequest F → ToolResult F → RunEvent F
  result_event o st request result =
      tool_result_event o (suc (length st.events)) (call_id o st request)
        (requested_identity o request) request result

  -- After the event of the call: the event of the result, unless the validator threw.
  unfoldable pub emit_result :
      ExecutorOptions F
      → ExecutorState F
      → ToolExecutionRequest F
      → Result (Thrown F) (ToolResult F)
      → ExecutorState F × Result (Thrown F) (ToolResult F)
  emit_result o st request (ok result) = (
    record {
      call_count = suc st.call_count;
      events = st.events ++ call_event o st request ∷ result_event o st request result ∷ [];
    },
    ok result,
  )
  emit_result o st request (err e) = (
    record { call_count = suc st.call_count; events = st.events ++ call_event o st request ∷ [] },
    err e,
  )

  unfoldable pub execute :
      ExecutorOptions F
      → List (TranscriptEntry F)
      → ExecutorState F
      → ToolExecutionRequest F
      → ExecutorState F × Result (Thrown F) (ToolResult F)
  execute o transcript st request = emit_result o st request (result_of o transcript st request)

  unfoldable pub result_id : ToolResult F → String
  result_id (success id tool output metadata) = id
  result_id (failure id tool error metadata) = id

  unfoldable pub result_tool : ToolResult F → ToolIdentity
  result_tool (success id tool output metadata) = tool
  result_tool (failure id tool error metadata) = tool

  -- A request with what it leaves out: the agent, the role and the turn.
  unfoldable pub completed_request :
      String → String → ℕ → ToolExecutionRequest F → ToolExecutionRequest F
  completed_request agent_id role turn request = record request {
    agent_id = some (get_or request.agent_id agent_id);
    role = some (get_or request.role role);
    turn = some (get_or request.turn turn);
    metadata = some (merge_tool_metadata none request.metadata);
  }

  unfoldable pub transcript_call : ToolExecutionRequest F → ToolResult F → TranscriptToolCall F
  transcript_call request result = record {
    tool_call_id = result_id result;
    tool = result_tool result;
    input = request.input;
    result = result;
  }

  -- What follows a request: the other requests, unless it threw.
  unfoldable pub after_request :
      ToolExecutionRequest F
      → ExecutorState F × Result (Thrown F) (ToolResult F)
      → (ExecutorState F → ExecutorState F × Result (Thrown F) (List (TranscriptToolCall F)))
      → ExecutorState F × Result (Thrown F) (List (TranscriptToolCall F))
  after_request request (after, ok result) rest =
      with_call (transcript_call request result) (rest after)
  after_request request (after, err e) rest = (after, err e)

  -- The loop over the requests.
  unfoldable pub execute_requests :
      ExecutorOptions F
      → List (TranscriptEntry F)
      → String
      → String
      → ℕ
      → ExecutorState F
      → List (ToolExecutionRequest F)
      → ExecutorState F × Result (Thrown F) (List (TranscriptToolCall F))
  execute_requests o transcript agent_id role turn st [] = (st, ok [])
  execute_requests o transcript agent_id role turn st (request ∷ requests) =
      after_request request (execute o transcript st (completed_request agent_id role turn request))
        (λ after. execute_requests o transcript agent_id role turn after requests)

  unfoldable pub execute_model_response_tool_requests :
      ExecutorOptions F
      → List (TranscriptEntry F)
      → String
      → String
      → ℕ
      → ExecutorState F
      → ModelResponse F
      → ExecutorState F × Result (Thrown F) (List (TranscriptToolCall F))
  execute_model_response_tool_requests o transcript agent_id role turn st response =
      execute_requests o transcript agent_id role turn st (get_or response.tool_requests [])
