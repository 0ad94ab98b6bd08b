-- ===== src/Sequential/Returns.antt =====
-- A sequential run (src/runtime/sequential.ts) that is not disturbed returns.
use dogpile.Base.{All}
use dogpile.Decisions.Reading.{Texts}
use dogpile.ModelTurn.Stream.{whole_response}
use dogpile.Base.{Option, none, some, Js, ◌≡◌}
use dogpile.Base.Result.{Result, ok}
use dogpile.Data.Model.{ModelRequest, ModelResponse}
use dogpile.Decisions.{parse_agent_decision}
use dogpile.ModelTurn.{ModelProvider, ChunkStream}
use dogpile.Sequential.{Point, SequentialRunOptions}
use dogpile.Sequential.Turn.{no_parse_context}
use dogpile.Tools.Answered.{Succeeds, Validates}

module _ {F : Type 0} ⦃js : Js F⦄ where
  -- The text of the response parses.
  abbrev pub Parses : Texts F → ModelResponse F → Type 0
  Parses texts response = Succeeds (parse_agent_decision texts no_parse_context response.text)

  -- A model that answers each request, at once or by a stream that does not break, with a text that
  -- parses.
  unfoldable pub Responds :
      Texts F → ModelProvider F → Option (ModelRequest F → ChunkStream F) → Type 0
  Responds texts model none =
      (request : ModelRequest F)
      → (r : ModelResponse F) × (model.generate request ≡ ok r) × Parses texts r
  Responds texts model (some stream) =
      (request : ModelRequest F)
      → ((stream request).failure ≡ none) × Parses texts (whole_response (stream request).chunks)

  -- A run that is never aborted, whose model answers each request with a text that parses and whose
  -- validators do not throw.
  pub record IsUndisturbed (o : SequentialRunOptions F) : Type 0 where
    pub unaborted : (p : Point) → o.check p ≡ ok tt
    pub responds : Responds o.texts o.model o.model.stream
    pub validates : All Validates o.tools
