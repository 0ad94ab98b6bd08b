-- ===== src/ModelTurn/Stream.antt =====
-- A stream of src/runtime/model.ts that is neither aborted nor broken, against a description of its
-- events and its response by the whole list of chunks.
use Prim.Native.String.{◌++◌ as str_append}
use Prim.Native.String.append
use text.Mathlib.TextLemmas.{append-nil as text_append-nil, append_assoc as text_append_assoc}
use mathlib.Core.List.{append-nil, append_assoc}
use dogpile.Base.{
  or_else, or_else_assoc, or_else-none, ℕ, suc, length, length-append, Option, none, some, String,
  List, [], ◌∷◌, ◌++◌, map, ◌≡◌, refl, sym, ◌∙◌, ap, ap₂, arith,
}
use dogpile.Base.Result.{ok}
use dogpile.Data.Model.{ModelRequest, ModelResponse}
use dogpile.Data.Trace.{RunEvent, model_output_chunk}
use dogpile.ModelTurn.{
  ModelOutputChunk, ChunkStream, TurnOptions, StreamState, request_event, chunk_event,
  record_provider_call, complete, initial_state, after_chunk, unless_empty, streamed_response,
  after_stream, unless_aborted, stream_chunks, run_model, started_turn, generate_model_turn,
}

-- The last value that is given.
pub last_given : {A : Type 0} → List (Option A) → Option A
last_given [] = none
last_given (o ∷ os) = or_else (last_given os) o

module _ {F : Type 0} where
  -- The texts of the chunks as one.
  pub joined : List (ModelOutputChunk F) → String
  joined [] = ""
  joined (c ∷ cs) = str_append c.text (joined cs)

  joined-append :
      (cs ds : List (ModelOutputChunk F)) → joined (cs ++ ds) ≡ str_append (joined cs) (joined ds)
  unfolding joined
  joined-append [] ds = sym (append.nil (joined ds))
  joined-append (c ∷ cs) ds =
      ap (str_append c.text) (joined-append cs ds)
      ∙ sym (text_append_assoc c.text (joined cs) (joined ds))

  joined-snoc :
      (cs : List (ModelOutputChunk F)) (c : ModelOutputChunk F)
      → joined (cs ++ c ∷ []) ≡ str_append (joined cs) c.text
  unfolding joined
  joined-snoc cs c =
      joined-append cs (c ∷ []) ∙ ap (str_append (joined cs)) (text_append-nil c.text)

  length-snoc :
      (cs : List (ModelOutputChunk F)) (c : ModelOutputChunk F)
      → length (cs ++ c ∷ []) ≡ suc (length cs)
  length-snoc cs c = omega (arith, length-append cs (c ∷ []))

  -- The events of the chunks after those `before`: each has its place and the text up to it.
  pub described :
      TurnOptions F → List (ModelOutputChunk F) → List (ModelOutputChunk F) → List (RunEvent F)
  described o before [] = []
  described o before (c ∷ cs) =
      model_output_chunk (record {
        run_id = o.run_id;
        parent_run_ids = none;
        at = o.at (suc (length before));
        agent_id = o.agent.id;
        role = o.agent.role;
        input = o.input;
        chunk_index = length before;
        text = c.text;
        output = joined (before ++ c ∷ []);
      })
      ∷ described o (before ++ c ∷ []) cs

  -- The response that the chunks make up.
  pub whole_response : List (ModelOutputChunk F) → ModelResponse F
  whole_response cs = record {
    text = joined cs;
    finish_reason = last_given (map (λ c. c.finish_reason) cs);
    tool_requests = unless_empty (last_given (map (λ c. c.tool_requests) cs));
    usage = last_given (map (λ c. c.usage) cs);
    cost_usd = last_given (map (λ c. c.cost_usd) cs);
    metadata = last_given (map (λ c. c.metadata) cs);
  }

  -- The state after the chunks.
  state_of : List (ModelOutputChunk F) → StreamState F
  state_of cs = record {
    text = joined cs;
    chunk_index = length cs;
    usage = last_given (map (λ c. c.usage) cs);
    cost_usd = last_given (map (λ c. c.cost_usd) cs);
    finish_reason = last_given (map (λ c. c.finish_reason) cs);
    tool_requests = last_given (map (λ c. c.tool_requests) cs);
    metadata = last_given (map (λ c. c.metadata) cs);
  }

  last_given-snoc :
      {A : Type 0} (f : ModelOutputChunk F → Option A) (cs : List (ModelOutputChunk F))
      (c : ModelOutputChunk F)
      → or_else (f c) (last_given (map f cs)) ≡ last_given (map f (cs ++ c ∷ []))
  unfolding last_given
  last_given-snoc f [] c = or_else-none (f c)
  last_given-snoc f (d ∷ cs) c =
      or_else_assoc (f c) (last_given (map f cs)) (f d)
      ∙ ap (λ o. or_else o (f d)) (last_given-snoc f cs c)

  after_chunk-state :
      (cs : List (ModelOutputChunk F)) (c : ModelOutputChunk F)
      → after_chunk (state_of cs) c ≡ state_of (cs ++ c ∷ [])
  unfolding after_chunk state_of
  after_chunk-state cs c =
      rw
        (
          joined-snoc cs c,
          length-snoc cs c,
          sym (last_given-snoc (λ c. c.usage) cs c),
          sym (last_given-snoc (λ c. c.cost_usd) cs c),
          sym (last_given-snoc (λ c. c.finish_reason) cs c),
          sym (last_given-snoc (λ c. c.tool_requests) cs c),
          sym (last_given-snoc (λ c. c.metadata) cs c),
        )
        refl

  chunk_event_lem :
      (o : TurnOptions F) (before : List (ModelOutputChunk F)) (c : ModelOutputChunk F)
      (cs : List (ModelOutputChunk F))
      → chunk_event o c (state_of before) ∷ described o (before ++ c ∷ []) cs
        ≡ described o before (c ∷ cs)
  unfolding chunk_event described state_of
  chunk_event_lem o before c cs = rw (joined-snoc before c) refl

  initial_lem : initial_state {F = F} ≡ state_of []
  unfolding initial_state state_of joined last_given
  initial_lem = refl

  -- The signal is never aborted.
  unfoldable pub NeverAborted : TurnOptions F → Type 0
  NeverAborted o = (n : ℕ) → o.check n ≡ ok tt

  stream_chunks_lem :
      (o : TurnOptions F) (before cs : List (ModelOutputChunk F)) (events : List (RunEvent F))
      → NeverAborted o
      → stream_chunks o cs none events (state_of before)
        ≡ record_provider_call o
            (events ++ described o before cs)
            (o.at (suc (length (before ++ cs))))
            (whole_response (before ++ cs))
  unfolding stream_chunks unless_aborted after_stream complete streamed_response described state_of
      whole_response NeverAborted
  stream_chunks_lem o before [] events never =
      rw (append-nil before, append-nil events, never (suc (length before))) refl
  stream_chunks_lem o before (c ∷ cs) events never =
      ap
        (λ r. unless_aborted r events (
          stream_chunks o cs none (events ++ chunk_event o c (state_of before) ∷ [])
            (after_chunk (state_of before) c)))
        (never (suc (length before)))
      ∙ ap (stream_chunks o cs none (events ++ chunk_event o c (state_of before) ∷ []))
          (after_chunk-state before c)
      ∙ stream_chunks_lem o (before ++ c ∷ []) cs (events ++ chunk_event o c (state_of before) ∷ [])
          never
      ∙ ap₂ (λ es all. record_provider_call o es (o.at (suc (length all))) (whole_response all))
          (append_assoc events (chunk_event o c (state_of before) ∷ [])
              (described o (before ++ c ∷ []) cs)
            ∙ ap (λ es. events ++ es) (chunk_event_lem o before c cs))
          (append_assoc before (c ∷ []) cs)

  -- A stream that does not break and is not aborted always ends in a response: the request event, then
  -- one event for each chunk with its place from 0 and the text of all chunks up to it, and then the
  -- response, whose text is that of all chunks and whose other properties are the last that a chunk
  -- gives, with one provider call.
  pub generate_model_turn-stream :
      (o : TurnOptions F) (stream : ModelRequest F → ChunkStream F)
      → o.model.stream ≡ some stream
      → (stream o.request).failure ≡ none
      → NeverAborted o
      → generate_model_turn o
        ≡ record_provider_call o
            (request_event o ∷ described o [] (stream o.request).chunks)
            (o.at (suc (length (stream o.request).chunks)))
            (whole_response (stream o.request).chunks)
  unfolding generate_model_turn started_turn run_model NeverAborted
  generate_model_turn-stream o stream streams whole never =
      ap (started_turn o) (never 0)
      ∙ ap (run_model o) streams
      ∙ ap (λ f. stream_chunks o (stream o.request).chunks f (request_event o ∷ []) initial_state)
          whole
      ∙ ap (stream_chunks o (stream o.request).chunks none (request_event o ∷ [])) initial_lem
      ∙ stream_chunks_lem o [] (stream o.request).chunks (request_event o ∷ []) never
