-- ===== src/Decisions.antt =====
-- src/runtime/decisions.ts: an agent's output read as a decision to participate or to delegate.
pub mod Reading
pub mod Depth
pub mod Allowed
pub mod Parts
pub mod Parser
pub mod Encode
mod Tests
use Prim.Native.String.{◌++◌ as str_append}
use dogpile.Base.{
  ℕ, suc, leb, ltb, Bool, true, false, not, ◌||◌, ◌&&◌, Option, none, some, String, List, [], ◌∷◌,
  Js, trim, str_eq, if◌then◌else◌,
}
use dogpile.Base.Result.{Result, ok, err, ◌>>=◌, ◌>>◌}
use dogpile.Data.Json.{Json, Items, Fields, null, bool, num, str, arr, obj, nil, cons, end, field}
use dogpile.Data.Agent.{
  Protocol, coordinator, sequential, broadcast, shared, BudgetCaps, AgentParticipation, contribute,
  abstain, ParticipateDecision, DelegateDecision, AgentDecision, participate, delegate, delegates,
}
use dogpile.Data.Error.{DogpileError, invalid_configuration}
use dogpile.Decisions.Depth.{depth_overflow_error}
use dogpile.Decisions.Reading.{
  ParseContext, Texts, participation_of, match_line, and_then, as_decision, invalid_delegate,
  get_field, describe, as_record, or_throw, parse_protocol, parse_intent, parse_model,
}

module _ {F : Type 0} ⦃js : Js F⦄ where
  -- A number that is whole and at least `least`.
  unfoldable pub whole_from : ℕ → Json F → Option ℕ
  whole_from least (num x) = and_then (js.whole x) (λ n. if leb least n then some n else none)
  whole_from least v = none

  children_error : Texts F → Json F → DogpileError F
  unfolding invalid_delegate describe
  children_error texts v = invalid_delegate (record {
    path = "decision.maxConcurrentChildren";
    message = "delegate decision maxConcurrentChildren must be a positive integer when present.";
    expected = "integer >= 1";
    received = describe texts (some v);
  })

  -- `budget.` and the key in the path and the message.
  budget_error : Texts F → String → Json F → DogpileError F
  unfolding invalid_delegate describe
  budget_error texts key v = invalid_delegate (record {
    path = str_append "decision.budget." key;
    message =
        str_append "delegate decision budget." (str_append key " must be a non-negative integer.");
    expected = "integer >= 0";
    received = describe texts (some v);
  })

  -- A property that is checked where it is present.
  unfoldable pub parse_whole :
      ℕ → (Json F → DogpileError F) → Option (Json F) → Result (DogpileError F) (Option ℕ)
  parse_whole least make none = ok none
  parse_whole least make (some v) = or_throw (make v) (whole_from least v) >>= λ n. ok (some n)

  budget_shape_error : Texts F → Json F → DogpileError F
  unfolding invalid_delegate describe
  budget_shape_error texts v = invalid_delegate (record {
    path = "decision.budget";
    message = "delegate decision budget must be an object.";
    expected = "object";
    received = describe texts (some v);
  })

  unfoldable pub parse_budget_fields : Texts F → Fields F → Result (DogpileError F) (BudgetCaps F)
  unfolding budget_error
  parse_budget_fields texts fs =
      parse_whole 0 (budget_error texts "timeoutMs") (get_field "timeoutMs" fs) >>= λ timeout_ms.
      parse_whole 0 (budget_error texts "maxTokens") (get_field "maxTokens" fs) >>= λ max_tokens.
      parse_whole 0 (budget_error texts "maxIterations") (get_field "maxIterations" fs)
      >>= λ max_iterations. ok (record {
        max_usd = none;
        max_tokens = max_tokens;
        max_iterations = max_iterations;
        timeout_ms = timeout_ms;
        quality_weight = none;
      })

  unfoldable pub parse_delegate_budget : Texts F → Json F → Result (DogpileError F) (BudgetCaps F)
  unfolding budget_shape_error
  parse_delegate_budget texts (obj fs) = parse_budget_fields texts fs
  parse_delegate_budget texts v = err (budget_shape_error texts v)

  unfoldable pub parse_optional_budget :
      Texts F → Option (Json F) → Result (DogpileError F) (Option (BudgetCaps F))
  parse_optional_budget texts none = ok none
  parse_optional_budget texts (some v) = parse_delegate_budget texts v >>= λ caps. ok (some caps)

  unfoldable pub check_parse_depth : Option ℕ → Option ℕ → Result (DogpileError F) (Unit {0})
  check_parse_depth (some current_depth) (some max_depth) =
      if ltb max_depth (suc current_depth)
      then err (depth_overflow_error current_depth max_depth)
      else ok tt
  check_parse_depth current_depth max_depth = ok tt

  unfoldable pub parse_fields :
      Texts F → ParseContext → Fields F → Result (DogpileError F) (DelegateDecision F)
  unfolding children_error
  parse_fields texts ctx fs = parse_protocol texts (get_field "protocol" fs) >>= λ protocol.
      parse_intent texts (get_field "intent" fs) >>= λ intent.
      parse_model texts ctx.parent_provider_id (get_field "model" fs) >>= λ model.
      parse_optional_budget texts (get_field "budget" fs) >>= λ budget.
      parse_whole 1 (children_error texts) (get_field "maxConcurrentChildren" fs) >>= λ children.
      check_parse_depth ctx.current_depth ctx.max_depth >>= λ _. ok (record {
        protocol = protocol;
        intent = intent;
        model = model;
        budget = budget;
        max_concurrent_children = children;
      })

  unfoldable pub parse_single_delegate_object :
      Texts F → ParseContext → Json F → Result (DogpileError F) (DelegateDecision F)
  parse_single_delegate_object texts ctx v = as_record texts v >>= parse_fields texts ctx

  unfoldable pub parse_items :
      Texts F → ParseContext → Items F → Result (DogpileError F) (List (DelegateDecision F))
  parse_items texts ctx nil = ok []
  parse_items texts ctx (cons v vs) = parse_single_delegate_object texts ctx v >>= λ d.
      parse_items texts ctx vs >>= λ ds. ok (d ∷ ds)

  empty_array_error : DogpileError F
  unfolding invalid_delegate
  empty_array_error = invalid_delegate (record {
    path = "decision";
    message = "delegate array must not be empty.";
    expected = "array with 1..8 delegate objects";
    received = "empty array";
  })

  -- `truncate`.
  truncate : Texts F → String → String
  truncate texts s = elim (texts.cut s) [ none ↦ s | some start ↦ str_append start "…" ]

  json_error : Texts F → String → String → DogpileError F
  unfolding invalid_delegate truncate
  json_error texts json_text reason = invalid_delegate (record {
    path = "decision";
    message = str_append "delegate JSON did not parse: " reason;
    expected = "valid JSON object";
    received = truncate texts json_text;
  })

  unfoldable pub parse_value :
      Texts F → ParseContext → Json F → Result (DogpileError F) (AgentDecision F)
  unfolding empty_array_error
  parse_value texts ctx (arr nil) = err empty_array_error
  parse_value texts ctx (arr (cons v vs)) =
      parse_items texts ctx (cons v vs) >>= λ ds. ok (delegates ds)
  parse_value texts ctx v = parse_single_delegate_object texts ctx v >>= λ d. ok (delegate d)

  unfoldable pub after_parse :
      Texts F
      → ParseContext
      → String
      → Result String (Json F)
      → Result (DogpileError F) (AgentDecision F)
  unfolding json_error
  after_parse texts ctx json_text (ok v) = parse_value texts ctx v
  after_parse texts ctx json_text (err reason) = err (json_error texts json_text reason)

  unfoldable pub parse_delegate_decision :
      Texts F → ParseContext → String → Result (DogpileError F) (AgentDecision F)
  parse_delegate_decision texts ctx json_text =
      after_parse texts ctx json_text (texts.json_parse json_text)

  unfoldable pub parse_participate_decision : Texts F → String → Option ParticipateDecision
  parse_participate_decision texts output =
      and_then (match_line (texts.role_selected output)) λ selected_role.
        and_then (and_then (match_line (texts.participation output)) participation_of)
          λ participation. and_then (match_line (texts.rationale output)) λ rationale.
            and_then (match_line (texts.contribution output)) λ contribution. some (record {
              selected_role = selected_role;
              participation = participation;
              rationale = rationale;
              contribution = contribution;
            })

  unfoldable pub parse_block :
      Texts F
      → ParseContext
      → String
      → Option String
      → Result (DogpileError F) (Option (AgentDecision F))
  parse_block texts ctx output (some block) =
      parse_delegate_decision texts ctx block >>= λ d. ok (some d)
  parse_block texts ctx output none = ok (as_decision (parse_participate_decision texts output))

  unfoldable pub parse_agent_decision :
      Texts F → ParseContext → String → Result (DogpileError F) (Option (AgentDecision F))
  parse_agent_decision texts ctx output = parse_block texts ctx output (texts.delegate_block output)

module _ {F : Type 0} where
  unfoldable pub is_participating_decision : Option (AgentDecision F) → Bool
  is_participating_decision (some (participate p)) = elim p.participation [
    | abstain ↦ false
    | contribute ↦ true
  ]
  is_participating_decision d = false
