-- ===== src/Tools/Answered.antt =====
-- The requests of a response are all answered where no validator throws (src/runtime/tools.ts).
use dogpile.Base.{All, find, Bool-cases, inl, inr}
use dogpile.Data.Json.{Json}
use dogpile.Data.Agent.{ToolIdentity, ToolResult, TranscriptEntry, TranscriptToolCall}
use dogpile.Data.Model.{ToolExecutionRequest}
use dogpile.Tools.Calls.{RuntimeTool, ExecutionContext, issues_of, execute_runtime_tool}
use dogpile.Tools.{
  ExecutorOptions, ExecutorState, execute, execute_requests, result_of, find_tool, emit_result,
  after_request, with_call, transcript_call, completed_request,
}
use dogpile.Base.{ℕ, Bool, Option, none, some, String, List, [], ◌∷◌, Js, ◌≡◌, refl, ap, ◌∙◌}
use dogpile.Base.Result.{Result, err, ok, ◌>>=◌}
use dogpile.Data.Error.{Thrown}

-- The call returns a value.
abbrev pub Succeeds : {E A : Type 0} → Result E A → Type 0
Succeeds {E} {A} m = (a : A) × (m ≡ ok a)

pub chain :
    {E A B : Type 0} (m : Result E A) (f : A → Result E B)
    → Succeeds m
    → ((a : A) → Succeeds (f a))
    → Succeeds (m >>= f)
chain m f (a, e) next = ((next a).0, rw e (next a).1)

-- What holds of the value, if there is one.
unfoldable IfSome : {A : Type 0} → (A → Type 0) → Option A → Type 0
IfSome P none = Unit
IfSome P (some a) = P a

find-IfSome :
    {A : Type 0} (P : A → Type 0) (p : A → Bool) (xs : List A) → All P xs → IfSome P (find p xs)
unfolding IfSome
find-IfSome P p [] h = tt
find-IfSome P p (x ∷ xs) (h, rest) = elim (Bool-cases (p x)) [
  | inl e ↦ rw e h
  | inr e ↦ rw e (find-IfSome P p xs rest)
]

-- A tool whose validator, if it has one, does not throw.
abbrev pub Validates : {F : Type 0} → RuntimeTool F → Type 0
Validates {F} tool = (input : Json F) → Succeeds (issues_of tool.validate_input input)

module _ {F : Type 0} where
  with_call-ok :
      (call : TranscriptToolCall F)
      (rest : ExecutorState F × Result (Thrown F) (List (TranscriptToolCall F)))
      (calls : List (TranscriptToolCall F))
      → rest.1 ≡ ok calls
      → (with_call call rest).1 ≡ ok (call ∷ calls)
  unfolding with_call
  with_call-ok call (last, ok cs) calls e = cc
  with_call-ok call (last, err x) calls e = cc

module _ {F : Type 0} ⦃js : Js F⦄ where
  runtime_tool-Succeeds :
      (tool : Option (RuntimeTool F)) (identity : ToolIdentity) (n : ℕ) (input : Json F)
      (context : ExecutionContext F)
      → IfSome Validates tool
      → Succeeds (execute_runtime_tool tool identity n input context)
  unfolding execute_runtime_tool IfSome
  runtime_tool-Succeeds none identity n input context h = (_, refl)
  runtime_tool-Succeeds (some tool) identity n input context h =
      chain (issues_of tool.validate_input input) _ (h input) (λ issues. (_, refl))

  after_request-Succeeds :
      (o : ExecutorOptions F) (st : ExecutorState F) (request full : ToolExecutionRequest F)
      (r : Result (Thrown F) (ToolResult F))
      (rest : ExecutorState F → ExecutorState F × Result (Thrown F) (List (TranscriptToolCall F)))
      → Succeeds r
      → ((st : ExecutorState F) → Succeeds (rest st).1)
      → Succeeds (after_request request (emit_result o st full r) rest).1
  unfolding after_request emit_result with_call
  after_request-Succeeds o st request full r rest (result, e) next =
      let after : ExecutorState F = (emit_result o st full (ok result)).0 in
      let (calls, f) = next after in
      (
        transcript_call request result ∷ calls,
        ap (λ r. (after_request request (emit_result o st full r) rest).1) e
            ∙ with_call-ok (transcript_call request result) (rest after) calls f,
      )

  pub execute_requests-Succeeds :
      (o : ExecutorOptions F) (transcript : List (TranscriptEntry F)) (agent_id role : String)
      (turn : ℕ) (st : ExecutorState F) (requests : List (ToolExecutionRequest F))
      → All Validates o.tools
      → Succeeds (execute_requests o transcript agent_id role turn st requests).1
  unfolding execute_requests execute result_of find_tool
  execute_requests-Succeeds o transcript agent_id role turn st [] h = ([], refl)
  execute_requests-Succeeds o transcript agent_id role turn st (request ∷ requests) h =
      after_request-Succeeds o st request (completed_request agent_id role turn request) _ _
        (runtime_tool-Succeeds
          (find_tool o.tools (completed_request agent_id role turn request).tool_id) _ _ _ _
          (find-IfSome Validates _ o.tools h))
        (λ st. execute_requests-Succeeds o transcript agent_id role turn st requests h)
