-- ===== src/Decisions/Reading.antt =====
-- The parts of a decision that src/runtime/decisions.ts reads from text and from fields.
use Prim.Native.String.{◌++◌ as str_append}
use dogpile.Base.{ℕ, false, Option, none, some, String, trim, str_eq, if◌then◌else◌}
use dogpile.Base.Result.{Result, ok, err, ◌>>=◌}
use dogpile.Data.Json.{Json, Fields, null, bool, num, str, arr, obj, end, field}
use dogpile.Data.Agent.{
  Protocol, coordinator, sequential, broadcast, shared, AgentParticipation, contribute, abstain,
  ParticipateDecision, AgentDecision, participate,
}
use dogpile.Data.Error.{DogpileError, invalid_configuration}

pub record ParseContext : Type 0 where
  pub current_depth : Option ℕ
  pub max_depth : Option ℕ
  pub parent_provider_id : Option String

-- What the parser takes from the runtime: `JSON.parse`, with the text of the error where it throws,
-- `JSON.stringify` of a text cut at 200 units, the cut of `truncate`, and the capture of each pattern.
pub record Texts (F : Type 0) : Type 0 where
  pub json_parse : String → Result String (Json F)
  pub quote : String → String
  pub cut : String → Option String
  pub delegate_block : String → Option String
  pub role_selected : String → Option String
  pub participation : String → Option String
  pub rationale : String → Option String
  pub contribution : String → Option String

pub record DelegateValidationFailure : Type 0 where
  pub path : String
  pub message : String
  pub expected : String
  pub received : String

unfoldable pub protocol_of_name : String → Option Protocol
protocol_of_name name =
    if str_eq name "coordinator"
    then some coordinator
    else if str_eq name "sequential"
    then some sequential
    else if str_eq name "broadcast"
    then some broadcast
    else if str_eq name "shared"
    then some shared
    else none

-- `!text` of an optional text.
unfoldable pub filled : Option String → Option String
filled none = none
filled (some s) = if str_eq s "" then none else some s

unfoldable pub participation_of : String → Option AgentParticipation
participation_of s =
    if str_eq s "contribute"
    then some contribute
    else if str_eq s "abstain"
    then some abstain
    else none

unfoldable pub match_line : Option String → Option String
match_line none = none
match_line (some s) = filled (some (trim s))

abbrev pub and_then : {A B : Type 0} → Option A → (A → Option B) → Option B
and_then none f = none
and_then (some a) f = f a

module _ {F : Type 0} where
  unfoldable pub as_decision : Option ParticipateDecision → Option (AgentDecision F)
  as_decision none = none
  as_decision (some p) = some (participate p)

  unfoldable pub invalid_delegate : DelegateValidationFailure → DogpileError F
  invalid_delegate failure = record {
    code = invalid_configuration;
    message =
        str_append "Invalid Dogpile configuration at "
          (str_append failure.path (str_append ": " failure.message));
    retryable = some false;
    provider_id = none;
    detail = some (
        obj (
          field "kind" (str "delegate-validation") (
            field "path" (str failure.path) (
              field "expected" (str failure.expected)
                (field "received" (str failure.received) end)))));
  }

  -- `record[key]`, of an object as `JSON.parse` makes it, with each key once.
  unfoldable pub get_field : String → Fields F → Option (Json F)
  get_field key end = none
  get_field key (field k v fs) = if str_eq k key then some v else get_field key fs

  -- `describe`; an absent value is `undefined`.
  unfoldable pub describe : Texts F → Option (Json F) → String
  describe texts none = "undefined"
  describe texts (some null) = "null"
  describe texts (some (arr xs)) = "array"
  describe texts (some (str s)) = texts.quote s
  describe texts (some (num x)) = "number"
  describe texts (some (bool b)) = "boolean"
  describe texts (some (obj fs)) = "object"

  unfoldable pub record_error : Texts F → Json F → DogpileError F
  unfolding invalid_delegate describe
  record_error texts v = invalid_delegate (record {
    path = "decision";
    message = "delegate decision must be a JSON object.";
    expected = "object";
    received = describe texts (some v);
  })

  -- `parsed as Record`, if it is an object; an array has none of the keys.
  unfoldable pub as_record : Texts F → Json F → Result (DogpileError F) (Fields F)
  unfolding record_error
  as_record texts (obj fs) = ok fs
  as_record texts (arr xs) = ok end
  as_record texts v = err (record_error texts v)

  unfoldable pub protocol_error : Texts F → Option (Json F) → DogpileError F
  unfolding invalid_delegate describe
  protocol_error texts v = invalid_delegate (record {
    path = "decision.protocol";
    message =
        str_append "protocol \""
          (str_append (describe texts v) "\" is not a known coordination protocol.");
    expected = "coordinator | sequential | broadcast | shared";
    received = describe texts v;
  })

  abbrev pub or_throw : {A : Type 0} → DogpileError F → Option A → Result (DogpileError F) A
  or_throw e none = err e
  or_throw e (some a) = ok a

  unfoldable pub parse_protocol : Texts F → Option (Json F) → Result (DogpileError F) Protocol
  unfolding protocol_error
  parse_protocol texts (some (str s)) =
      or_throw (protocol_error texts (some (str s))) (protocol_of_name s)
  parse_protocol texts v = err (protocol_error texts v)

  unfoldable pub intent_error : Texts F → Option (Json F) → DogpileError F
  unfolding invalid_delegate describe
  intent_error texts v = invalid_delegate (record {
    path = "decision.intent";
    message = "delegate decision must include a non-empty intent string.";
    expected = "non-empty string";
    received = describe texts v;
  })

  -- The trimmed intent.
  unfoldable pub parse_intent : Texts F → Option (Json F) → Result (DogpileError F) String
  unfolding intent_error
  parse_intent texts (some (str s)) =
      or_throw (intent_error texts (some (str s))) (filled (some (trim s)))
  parse_intent texts v = err (intent_error texts v)

  unfoldable pub model_error : Texts F → Json F → DogpileError F
  unfolding invalid_delegate describe
  model_error texts v = invalid_delegate (record {
    path = "decision.model";
    message = "delegate decision model must be a non-empty string when present.";
    expected = "non-empty string";
    received = describe texts (some v);
  })

  unfoldable pub parent_model_error : String → String → DogpileError F
  unfolding invalid_delegate
  parent_model_error model parent = invalid_delegate (record {
    path = "decision.model";
    message = str_append "delegate decision model \"" (
        str_append model
          (str_append "\" does not match parent provider id \"" (str_append parent "\".")));
    expected = parent;
    received = model;
  })

  unfoldable pub check_parent_model :
      Option String → String → Result (DogpileError F) (Option String)
  unfolding parent_model_error
  check_parent_model none model = ok (some model)
  check_parent_model (some parent) model =
      if str_eq model parent then ok (some model) else err (parent_model_error model parent)

  unfoldable pub parse_model :
      Texts F → Option String → Option (Json F) → Result (DogpileError F) (Option String)
  unfolding model_error
  parse_model texts parent none = ok none
  parse_model texts parent (some (str s)) =
      or_throw (model_error texts (str s)) (filled (some s)) >>= check_parent_model parent
  parse_model texts parent (some v) = err (model_error texts v)
