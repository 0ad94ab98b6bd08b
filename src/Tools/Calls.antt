-- ===== src/Tools/Calls.antt =====
-- One call of a tool (src/runtime/tools.ts) and the normalization of what it throws
-- (src/runtime/tools/built-in.ts).
use Prim.Native.String.{◌++◌ as str_append}
use dogpile.Base.{ℕ, true, false, Option, none, some, String, List, [], ◌∷◌, str_eq, if◌then◌else◌}
use dogpile.Base.Result.{Result, ok, err, ◌>>=◌}
use dogpile.Data.Json.{Json, Items, Fields, str, arr, obj, nil, cons, end, field}
use dogpile.Data.Agent.{
  Protocol, BudgetTier, ToolIdentity, ToolError, ToolResult, failure, TranscriptEntry,
}
use dogpile.Data.Error.{Thrown}
use dogpile.Data.Trace.{RunEvent}

pub record ValidationIssue (F : Type 0) : Type 0 where
  pub code : String
  pub path : String
  pub message : String
  pub detail : Option (Json F)

-- What a tool may throw: an adapter's error by its code and message, an abort of the platform with its
-- message, an `Error` with its name and message, or another value by its `typeof`.
pub data ToolThrown (F : Type 0) : Type 0 where
  adapter_error : ToolError F → ToolThrown F
  abort_exception : String → ToolThrown F
  plain_error : String → String → ToolThrown F
  no_error : String → ToolThrown F

pub record ExecutionContext (F : Type 0) : Type 0 where
  pub run_id : String
  pub tool_call_id : String
  pub protocol : Protocol
  pub tier : BudgetTier
  pub agent_id : Option String
  pub role : Option String
  pub turn : Option ℕ
  pub events : List (RunEvent F)
  pub transcript : List (TranscriptEntry F)
  pub metadata : Option (Json F)

-- A validator may refuse the input with issues, or throw. `manifest` is the tool's entry of `runtimeToolManifest`, made of its schema and permissions.
pub record RuntimeTool (F : Type 0) : Type 0 where
  pub identity : ToolIdentity
  pub manifest : Json F
  pub validate_input : Option (Json F → Result (Thrown F) (Option (List (ValidationIssue F))))
  pub execute : ℕ → Json F → ExecutionContext F → Result (ToolThrown F) (ToolResult F)

module _ {F : Type 0} where
  -- `object[key] = v`.
  unfoldable pub set_field : String → Json F → Fields F → Fields F
  set_field k v end = field k v end
  set_field k v (field k' v' fs) =
      let rest = set_field k v fs in if str_eq k' k then field k' v fs else field k' v' rest

  -- `{ ...base, ...request }`, entry by entry.
  unfoldable pub spread : Fields F → Fields F → Fields F
  spread base end = base
  spread base (field k v fs) = spread (set_field k v base) fs

  unfoldable pub entries : Option (Json F) → Fields F
  entries (some (obj fs)) = fs
  entries v = end

  unfoldable pub merge_tool_metadata : Option (Json F) → Option (Json F) → Json F
  merge_tool_metadata base request = obj (spread (spread end (entries base)) (entries request))

  unfoldable pub normalize_runtime_tool_adapter_error : ToolThrown F → ToolError F
  normalize_runtime_tool_adapter_error (adapter_error e) = e
  normalize_runtime_tool_adapter_error (abort_exception message) = record {
    code = "aborted";
    message = if str_eq message "" then "Tool execution was aborted." else message;
    retryable = some true;
    detail = some (obj (field "name" (str "AbortError") end));
  }
  normalize_runtime_tool_adapter_error (plain_error name message) = record {
    code = "backend-error";
    message = message;
    retryable = some false;
    detail = some (obj (field "name" (str name) end));
  }
  normalize_runtime_tool_adapter_error (no_error type_name) = record {
    code = "unknown";
    message = "Tool execution failed with a non-Error value.";
    retryable = some false;
    detail = some (obj (field "valueType" (str type_name) end));
  }

  manifests : List (RuntimeTool F) → Items F
  manifests [] = nil
  manifests (t ∷ ts) = cons t.manifest (manifests ts)

  unfoldable pub runtime_tool_availability : List (RuntimeTool F) → Fields F
  unfolding manifests
  runtime_tool_availability [] = end
  runtime_tool_availability (t ∷ ts) = field "tools" (arr (manifests (t ∷ ts))) end

  issue_detail : Option (Json F) → Fields F
  issue_detail none = end
  issue_detail (some d) = field "detail" d end

  issues_json : List (ValidationIssue F) → Items F
  unfolding issue_detail
  issues_json [] = nil
  issues_json (i ∷ is) =
      cons
        (obj (
          field "code" (str i.code)
            (field "path" (str i.path) (field "message" (str i.message) (issue_detail i.detail)))))
        (issues_json is)

  unfoldable pub unavailable_error : ToolIdentity → ToolError F
  unavailable_error identity = record {
    code = "unavailable";
    message = str_append "Runtime tool \"" (str_append identity.id "\" is not registered.");
    retryable = some false;
    detail = none;
  }

  unfoldable pub invalid_input : List (ValidationIssue F) → ToolError F
  unfolding issues_json
  invalid_input issues = record {
    code = "invalid-input";
    message = "Runtime tool input failed validation.";
    retryable = some false;
    detail = some (obj (field "issues" (arr (issues_json issues)) end));
  }

  unfoldable pub after_execute :
      String → ToolIdentity → Result (ToolThrown F) (ToolResult F) → ToolResult F
  after_execute tool_call_id identity (ok r) = r
  after_execute tool_call_id identity (err e) =
      failure tool_call_id identity (normalize_runtime_tool_adapter_error e) none

  unfoldable pub issues_of :
      Option (Json F → Result (Thrown F) (Option (List (ValidationIssue F))))
      → Json F
      → Result (Thrown F) (Option (List (ValidationIssue F)))
  issues_of none input = ok none
  issues_of (some validate) input = validate input

  unfoldable pub unless_invalid :
      String → ToolIdentity → Option (List (ValidationIssue F)) → ToolResult F → ToolResult F
  unless_invalid tool_call_id identity none result = result
  unless_invalid tool_call_id identity (some issues) result =
      failure tool_call_id identity (invalid_input issues) none

  unfoldable pub execute_runtime_tool :
      Option (RuntimeTool F)
      → ToolIdentity
      → ℕ
      → Json F
      → ExecutionContext F
      → Result (Thrown F) (ToolResult F)
  execute_runtime_tool none identity call_index input context =
      ok (failure context.tool_call_id identity (unavailable_error identity) none)
  execute_runtime_tool (some tool) identity call_index input context =
      issues_of tool.validate_input input >>= λ issues. ok (
        unless_invalid context.tool_call_id identity issues
          (after_execute context.tool_call_id identity (tool.execute call_index input context)))
