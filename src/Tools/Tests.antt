-- ===== src/Tools/Tests.antt =====
-- Two requests, the second for a tool that is not registered.
use dogpile.Base.{ℕ, get_or, some, none, String, [], ◌∷◌}
use dogpile.Base.{true, ◌≡◌, refl}
use dogpile.Base.Result.{ok, err}
use dogpile.Data.Error.{other}
use dogpile.Tools.Calls.{execute_runtime_tool, issues_of}
use dogpile.Tools.{
  execute_requests, execute, emit_result, after_request, result_of, find_tool, completed_request,
}
use dogpile.Data.Json.{null, str, obj, end}
use dogpile.Data.Agent.{Protocol, BudgetTier, ToolIdentity, success}
use dogpile.Data.Model.{ToolExecutionRequest, ModelResponse}
use dogpile.Samples.{whole_js, role_event}
use dogpile.Tools.{ExecutorOptions, ExecutorState, execute_model_response_tool_requests}
use dogpile.Tools.Paired.{Adds, execute_model_response_tool_requests-Adds}

abbrev calculator : ToolIdentity
calculator = record {
  id = "calc";
  name = "calculator";
  namespace = none;
  version = none;
  description = none;
}

abbrev options : ExecutorOptions ℕ
options = record {
  run_id = "run";
  protocol = Protocol.sequential;
  tier = BudgetTier.fast;
  tools =
      record {
        identity = calculator;
        manifest = null;
        validate_input = none;
        execute = λ n input context. ok (success context.tool_call_id calculator (str "4") none);
      }
      ∷ [];
  at = λ n. "t";
}

abbrev request : String → ToolExecutionRequest ℕ
request id = record {
  tool_call_id = none;
  tool_id = id;
  input = obj end;
  agent_id = none;
  role = none;
  turn = none;
  metadata = none;
}

abbrev response : ModelResponse ℕ
response = record {
  text = "2 + 2";
  finish_reason = none;
  tool_requests = some (request "calc" ∷ request "web" ∷ []);
  usage = none;
  cost_usd = none;
  metadata = none;
}

abbrev start : ExecutorState ℕ
start = record { call_count = 5; events = role_event "a" ∷ [] }

abbrev strict : ExecutorOptions ℕ
strict = record options {
  tools =
      record {
        identity = calculator;
        manifest = null;
        validate_input = some (λ input. err (other (some "TypeError") true));
        execute = λ n input context. ok (success context.tool_call_id calculator (str "4") none);
      }
      ∷ [];
}

-- The validator's error leaves the executor after the one event of the call.
validator_throws :
    (execute_model_response_tool_requests strict [] "a" "writer" 1 start response).1
    ≡ err (other (some "TypeError") true)
unfolding execute_model_response_tool_requests execute_requests execute emit_result after_request
    result_of execute_runtime_tool issues_of find_tool completed_request
validator_throws = refl

execute_model_response_tool_requests-Adds_example :
    Adds options.tools start
      (get_or response.tool_requests [])
      (execute_model_response_tool_requests options [] "a" "writer" 1 start response).0
      (execute_model_response_tool_requests options [] "a" "writer" 1 start response).1
execute_model_response_tool_requests-Adds_example =
    execute_model_response_tool_requests-Adds options [] "a" "writer" 1 start response
