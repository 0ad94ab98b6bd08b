-- ===== src/ModelTurn.antt =====
-- `generateModelTurn` of src/runtime/model.ts: one turn of a model, generated at once or streamed. The
-- events that are emitted and the calls that are recorded are part of the outcome. The clock and the
-- signal are asked several times in a turn; a question is known by its number.
pub mod Shape
pub mod Stream
mod Tests
use Prim.Native.String.{◌++◌ as str_append}
use dogpile.Base.{
  or_else, ℕ, suc, leb, length, Option, none, some, String, List, [], ◌∷◌, ◌++◌, get_or,
}
use dogpile.Base.Result.{Result, ok, err}
use dogpile.Data.Json.{Json}
use dogpile.Data.Agent.{AgentSpec}
use dogpile.Data.Error.{Thrown}
use dogpile.Data.Model.{
  ModelMessage, FinishReason, ModelRequest, ModelResponse, ModelUsage, ToolExecutionRequest,
}
use dogpile.Data.Event.{ModelRequestEvent, ModelResponseEvent, ModelOutputChunkEvent}
use dogpile.Data.Replay.{ReplayTraceProviderCall}
use dogpile.Data.Trace.{RunEvent, model_request, model_response, model_output_chunk}

pub record ModelOutputChunk (F : Type 0) : Type 0 where
  pub text : String
  pub finish_reason : Option FinishReason
  pub tool_requests : Option (List (ToolExecutionRequest F))
  pub usage : Option ModelUsage
  pub cost_usd : Option F
  pub metadata : Option (Json F)

-- What a stream yields: its chunks, and the error that ends it, if one does.
pub record ChunkStream (F : Type 0) : Type 0 where
  pub chunks : List (ModelOutputChunk F)
  pub failure : Option (Thrown F)

pub record ModelProvider (F : Type 0) : Type 0 where
  pub id : String
  pub model_id : Option String
  pub generate : ModelRequest F → Result (Thrown F) (ModelResponse F)
  pub stream : Option (ModelRequest F → ChunkStream F)

-- `at` is the time that the n-th reading of the clock gives, `check` the n-th `throwIfAborted`, and
-- `copy_json` is `JSON.parse(JSON.stringify(…))`.
pub record TurnOptions (F : Type 0) : Type 0 where
  pub model : ModelProvider F
  pub request : ModelRequest F
  pub run_id : String
  pub agent : AgentSpec
  pub input : String
  pub call_id : String
  pub at : ℕ → String
  pub check : ℕ → Result (Thrown F) (Unit {0})
  pub copy_json : Json F → Json F

pub record TurnOutcome (F : Type 0) : Type 0 where
  pub events : List (RunEvent F)
  pub calls : List (ReplayTraceProviderCall F)
  pub result : Result (Thrown F) (ModelResponse F)

-- The variables of the loop over the chunks.
pub record StreamState (F : Type 0) : Type 0 where
  pub text : String
  pub chunk_index : ℕ
  pub usage : Option ModelUsage
  pub cost_usd : Option F
  pub finish_reason : Option FinishReason
  pub tool_requests : Option (List (ToolExecutionRequest F))
  pub metadata : Option (Json F)

-- An empty array of requests is left out.
unfoldable pub unless_empty : {A : Type 0} → Option (List A) → Option (List A)
unless_empty (some (x ∷ xs)) = some (x ∷ xs)
unless_empty xs = none

module _ {F : Type 0} where
  unfoldable pub request_for_trace : (Json F → Json F) → ModelRequest F → ModelRequest F
  request_for_trace copy_json request = record {
    messages = request.messages;
    temperature = request.temperature;
    metadata = copy_json request.metadata;
  }

  unfoldable pub model_id_of : ModelProvider F → String
  model_id_of model = get_or model.model_id model.id

  unfoldable pub request_event : TurnOptions F → RunEvent F
  request_event o = model_request (record {
    run_id = o.run_id;
    parent_run_ids = none;
    started_at = o.at 0;
    call_id = o.call_id;
    provider_id = o.model.id;
    model_id = model_id_of o.model;
    agent_id = o.agent.id;
    role = o.agent.role;
    request = request_for_trace o.copy_json o.request;
  })

  unfoldable pub chunk_event : TurnOptions F → ModelOutputChunk F → StreamState F → RunEvent F
  chunk_event o chunk st = model_output_chunk (record {
    run_id = o.run_id;
    parent_run_ids = none;
    at = o.at (suc st.chunk_index);
    agent_id = o.agent.id;
    role = o.agent.role;
    input = o.input;
    chunk_index = st.chunk_index;
    text = chunk.text;
    output = str_append st.text chunk.text;
  })

  -- `completed_at` is the time of the last reading of the clock.
  unfoldable pub response_event : TurnOptions F → String → ModelResponse F → RunEvent F
  response_event o completed_at response = model_response (record {
    run_id = o.run_id;
    parent_run_ids = none;
    started_at = o.at 0;
    completed_at = completed_at;
    call_id = o.call_id;
    provider_id = o.model.id;
    model_id = model_id_of o.model;
    agent_id = o.agent.id;
    role = o.agent.role;
    response = response;
  })

  unfoldable pub provider_call :
      TurnOptions F → String → ModelResponse F → ReplayTraceProviderCall F
  provider_call o completed_at response = record {
    call_id = o.call_id;
    provider_id = o.model.id;
    model_id = model_id_of o.model;
    started_at = o.at 0;
    completed_at = completed_at;
    agent_id = o.agent.id;
    role = o.agent.role;
    request = request_for_trace o.copy_json o.request;
    response = response;
  }

  -- A turn that ended with an error after the given events.
  unfoldable pub failed_turn : List (RunEvent F) → Thrown F → TurnOutcome F
  failed_turn events e = record { events = events; calls = []; result = err e }

  -- `recordProviderCall`, after the events so far.
  unfoldable pub record_provider_call :
      TurnOptions F → List (RunEvent F) → String → ModelResponse F → TurnOutcome F
  record_provider_call o events completed_at response = record {
    events = events ++ response_event o completed_at response ∷ [];
    calls = provider_call o completed_at response ∷ [];
    result = ok response;
  }

  -- The check of the signal numbered `n` and then the record.
  unfoldable pub complete :
      TurnOptions F
      → List (RunEvent F)
      → ℕ
      → ModelResponse F
      → Result (Thrown F) (Unit {0})
      → TurnOutcome F
  complete o events n response (ok u) = record_provider_call o events (o.at n) response
  complete o events n response (err e) = failed_turn events e

  unfoldable pub generated : TurnOptions F → Result (Thrown F) (ModelResponse F) → TurnOutcome F
  generated o (ok response) = complete o (request_event o ∷ []) 1 response (o.check 1)
  generated o (err e) = failed_turn (request_event o ∷ []) e

  unfoldable pub initial_state : StreamState F
  initial_state = record {
    text = "";
    chunk_index = 0;
    usage = none;
    cost_usd = none;
    finish_reason = none;
    tool_requests = none;
    metadata = none;
  }

  -- The last value that a chunk gives is kept.
  unfoldable pub after_chunk : StreamState F → ModelOutputChunk F → StreamState F
  after_chunk st chunk = record {
    text = str_append st.text chunk.text;
    chunk_index = suc st.chunk_index;
    usage = or_else chunk.usage st.usage;
    cost_usd = or_else chunk.cost_usd st.cost_usd;
    finish_reason = or_else chunk.finish_reason st.finish_reason;
    tool_requests = or_else chunk.tool_requests st.tool_requests;
    metadata = or_else chunk.metadata st.metadata;
  }

  unfoldable pub streamed_response : StreamState F → ModelResponse F
  streamed_response st = record {
    text = st.text;
    finish_reason = st.finish_reason;
    tool_requests = unless_empty st.tool_requests;
    usage = st.usage;
    cost_usd = st.cost_usd;
    metadata = st.metadata;
  }

  -- The end of the stream, or the error that it threw.
  unfoldable pub after_stream :
      TurnOptions F → List (RunEvent F) → StreamState F → Option (Thrown F) → TurnOutcome F
  after_stream o events st none =
      complete o events (suc st.chunk_index) (streamed_response st) (o.check (suc st.chunk_index))
  after_stream o events st (some e) = failed_turn events e

  unfoldable pub unless_aborted :
      Result (Thrown F) (Unit {0}) → List (RunEvent F) → TurnOutcome F → TurnOutcome F
  unless_aborted (ok u) events rest = rest
  unless_aborted (err e) events rest = failed_turn events e

  -- The loop over the chunks; `events` have been emitted so far.
  unfoldable pub stream_chunks :
      TurnOptions F
      → List (ModelOutputChunk F)
      → Option (Thrown F)
      → List (RunEvent F)
      → StreamState F
      → TurnOutcome F
  stream_chunks o [] failure events st = after_stream o events st failure
  stream_chunks o (chunk ∷ chunks) failure events st =
      let rest =
        stream_chunks o chunks failure (events ++ chunk_event o chunk st ∷ [])
          (after_chunk st chunk) in
      unless_aborted (o.check (suc st.chunk_index)) events rest

  unfoldable pub run_model : TurnOptions F → Option (ModelRequest F → ChunkStream F) → TurnOutcome F
  run_model o none = generated o (o.model.generate o.request)
  run_model o (some stream) =
      stream_chunks o (stream o.request).chunks (stream o.request).failure (request_event o ∷ [])
        initial_state

  unfoldable pub started_turn : TurnOptions F → Result (Thrown F) (Unit {0}) → TurnOutcome F
  started_turn o (ok u) = run_model o o.model.stream
  started_turn o (err e) = failed_turn [] e

  unfoldable pub generate_model_turn : TurnOptions F → TurnOutcome F
  generate_model_turn o = started_turn o (o.check 0)
