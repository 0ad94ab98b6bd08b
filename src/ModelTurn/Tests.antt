-- ===== src/ModelTurn/Tests.antt =====
-- A turn that streams two chunks.
use dogpile.Base.{ℕ, suc, length, some, none, String, [], ◌∷◌, Option, ◌≡◌, refl}
use dogpile.Base.Result.{ok}
use dogpile.Data.Json.{end, obj}
use dogpile.Data.Model.{ModelRequest}
use dogpile.ModelTurn.{
  ModelOutputChunk, ChunkStream, TurnOptions, request_event, record_provider_call,
  generate_model_turn,
}
use dogpile.ModelTurn.Shape.{LeavesTurn, generate_model_turn-Leaves}
use dogpile.ModelTurn.Stream.{NeverAborted, described, whole_response, generate_model_turn-stream}

abbrev chunk : String → Option ℕ → ModelOutputChunk ℕ
chunk text cost = record {
  text = text;
  finish_reason = none;
  tool_requests = some [];
  usage = none;
  cost_usd = cost;
  metadata = none;
}

abbrev stream : ModelRequest ℕ → ChunkStream ℕ
stream request = record { chunks = chunk "he" (some 3) ∷ chunk "llo" none ∷ []; failure = none }

abbrev options : TurnOptions ℕ
options = record {
  model = record {
    id = "p";
    model_id = none;
    generate = λ r. ok (record {
      text = "hello";
      finish_reason = none;
      tool_requests = none;
      usage = none;
      cost_usd = none;
      metadata = none;
    });
    stream = some stream;
  };
  request = record { messages = []; temperature = 0; metadata = obj end };
  run_id = "run";
  agent = record { id = "a"; role = "writer"; instructions = none };
  input = "go";
  call_id = "run:provider-call:1";
  at = λ n. "t";
  check = λ n. ok tt;
  copy_json = λ j. j;
}

options-NeverAborted : NeverAborted options
unfolding NeverAborted
options-NeverAborted = λ n. refl

generate_model_turn-Leaves_example : LeavesTurn options (generate_model_turn options)
generate_model_turn-Leaves_example = generate_model_turn-Leaves options

generate_model_turn-stream_example :
    generate_model_turn options
    ≡ record_provider_call options
        (request_event options ∷ described options [] (stream options.request).chunks)
        (options.at (suc (length (stream options.request).chunks)))
        (whole_response (stream options.request).chunks)
generate_model_turn-stream_example =
    generate_model_turn-stream options stream refl refl options-NeverAborted
