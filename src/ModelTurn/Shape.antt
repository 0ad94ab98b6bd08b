-- ===== src/ModelTurn/Shape.antt =====
-- Which events and calls a turn of src/runtime/model.ts leaves behind, however it ends.
use dogpile.Base.{
  ℕ, suc, Option, none, some, String, List, [], ◌∷◌, ◌++◌, All, ◌≡◌, refl, sym, ◌∙◌, ◌⊎◌, inl, inr,
}
use mathlib.Core.List.{append-nil, append_assoc}
use dogpile.Base.Result.{Result, ok, err}
use dogpile.Data.Error.{Thrown}
use dogpile.Data.Model.{ModelRequest, ModelResponse}
use dogpile.Data.Replay.{EventType}
use dogpile.Data.Trace.{RunEvent, type_of}
use dogpile.ModelTurn.{
  ModelOutputChunk, ChunkStream, TurnOptions, TurnOutcome, StreamState, request_event, chunk_event,
  response_event, provider_call, failed_turn, record_provider_call, complete, generated,
  initial_state, after_chunk, after_stream, unless_aborted, stream_chunks, run_model, started_turn,
  generate_model_turn,
}

module _ {F : Type 0} where
  unfoldable pub IsChunk : RunEvent F → Type 0
  IsChunk e = type_of e ≡ EventType.model_output_chunk

  -- The events and calls of a turn with the given result, after the request event and the chunks.
  unfoldable pub Leaves :
      TurnOptions F
      → List (RunEvent F)
      → TurnOutcome F
      → Result (Thrown F) (ModelResponse F)
      → Type 0
  Leaves o before out (ok r) =
      (t : String) × (chunks : List (RunEvent F)) × All IsChunk chunks
      × (out.events ≡ before ++ (chunks ++ response_event o t r ∷ []))
      × (out.calls ≡ provider_call o t r ∷ [])
  Leaves o before out (err e) =
      (chunks : List (RunEvent F)) × All IsChunk chunks
      × (out.events ≡ before ++ chunks)
      × (out.calls ≡ [])

  complete-Leaves :
      (o : TurnOptions F) (before : List (RunEvent F)) (n : ℕ) (r : ModelResponse F)
      (c : Result (Thrown F) (Unit {0}))
      → Leaves o before (complete o before n r c) (complete o before n r c).result
  unfolding complete record_provider_call failed_turn Leaves
  complete-Leaves o before n r (ok u) = (o.at n, [], tt, refl, refl)
  complete-Leaves o before n r (err e) = ([], tt, sym (append-nil before), refl)

  after_stream-Leaves :
      (o : TurnOptions F) (before : List (RunEvent F)) (st : StreamState F)
      (failure : Option (Thrown F))
      → Leaves o before (after_stream o before st failure) (after_stream o before st failure).result
  unfolding after_stream failed_turn Leaves
  after_stream-Leaves o before st none = complete-Leaves o before _ _ (o.check (suc st.chunk_index))
  after_stream-Leaves o before st (some e) = ([], tt, sym (append-nil before), refl)

  -- A chunk more in front of what is left behind.
  with_chunk :
      (o : TurnOptions F) (before : List (RunEvent F)) (e : RunEvent F) (out : TurnOutcome F)
      (r : Result (Thrown F) (ModelResponse F))
      → IsChunk e
      → Leaves o (before ++ e ∷ []) out r
      → Leaves o before out r
  unfolding Leaves
  with_chunk o before e out (ok r) is (t, chunks, all_chunks, events, calls) =
      (t, e ∷ chunks, (is, all_chunks), events ∙ append_assoc before (e ∷ []) _, calls)
  with_chunk o before e out (err x) is (chunks, all_chunks, events, calls) =
      (e ∷ chunks, (is, all_chunks), events ∙ append_assoc before (e ∷ []) _, calls)

  unless_aborted-Leaves :
      (o : TurnOptions F) (before : List (RunEvent F)) (c : Result (Thrown F) (Unit {0}))
      (rest : TurnOutcome F)
      → Leaves o before rest rest.result
      → Leaves o before (unless_aborted c before rest) (unless_aborted c before rest).result
  unfolding unless_aborted failed_turn Leaves
  unless_aborted-Leaves o before (ok u) rest h = h
  unless_aborted-Leaves o before (err e) rest h = ([], tt, sym (append-nil before), refl)

  stream_chunks-Leaves :
      (o : TurnOptions F) (cs : List (ModelOutputChunk F)) (failure : Option (Thrown F))
      (before : List (RunEvent F)) (st : StreamState F)
      → Leaves o before
          (stream_chunks o cs failure before st)
          (stream_chunks o cs failure before st).result
  unfolding stream_chunks chunk_event IsChunk
  stream_chunks-Leaves o [] failure before st = after_stream-Leaves o before st failure
  stream_chunks-Leaves o (c ∷ cs) failure before st =
      unless_aborted-Leaves o before (o.check (suc st.chunk_index)) _ (
        with_chunk o before (chunk_event o c st) _ _ refl
          (stream_chunks-Leaves o cs failure _ (after_chunk st c)))

  generated-Leaves :
      (o : TurnOptions F) (r : Result (Thrown F) (ModelResponse F))
      → Leaves o (request_event o ∷ []) (generated o r) (generated o r).result
  unfolding generated failed_turn Leaves
  generated-Leaves o (ok r) = complete-Leaves o (request_event o ∷ []) 1 r (o.check 1)
  generated-Leaves o (err e) = ([], tt, refl, refl)

  run_model-Leaves :
      (o : TurnOptions F) (s : Option (ModelRequest F → ChunkStream F))
      → Leaves o (request_event o ∷ []) (run_model o s) (run_model o s).result
  unfolding run_model
  run_model-Leaves o none = generated-Leaves o (o.model.generate o.request)
  run_model-Leaves o (some stream) =
      stream_chunks-Leaves o (stream o.request).chunks (stream o.request).failure _ initial_state

  -- A turn that was aborted before it began leaves nothing.
  unfoldable pub LeavesTurn : TurnOptions F → TurnOutcome F → Type 0
  LeavesTurn o out =
      ((out.events ≡ [])
        × (out.calls ≡ [])
        × ((e : Thrown F) × (o.check 0 ≡ err e) × (out.result ≡ err e)))
      ⊎ Leaves o (request_event o ∷ []) out out.result

  started_turn-Leaves :
      (o : TurnOptions F) (c : Result (Thrown F) (Unit {0}))
      → o.check 0 ≡ c
      → LeavesTurn o (started_turn o c)
  unfolding started_turn failed_turn LeavesTurn
  started_turn-Leaves o (ok u) h = inr (run_model-Leaves o o.model.stream)
  started_turn-Leaves o (err e) h = inl (refl, refl, (e, h, refl))

  -- A turn that is not aborted before it begins emits its request event first and then only chunks. If
  -- it returns a response, the response event comes last and is the only one, and one provider call
  -- is recorded, with the same response and time; if it fails, no response event is emitted and no
  -- call is recorded. A turn that is aborted before it begins emits nothing.
  pub generate_model_turn-Leaves : (o : TurnOptions F) → LeavesTurn o (generate_model_turn o)
  unfolding generate_model_turn
  generate_model_turn-Leaves o = started_turn-Leaves o (o.check 0) refl
