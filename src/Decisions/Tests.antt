-- ===== src/Decisions/Tests.antt =====
-- Delegates and participations read from small values.
use dogpile.Base.{ℕ, none, some, refl, ◌≡◌, arith, trim}
use dogpile.Base.Result.{ok}
use dogpile.Data.Agent.{DelegateDecision, Protocol}
use dogpile.Samples.{whole_js, whole_js-HasWhole}
use dogpile.Decisions.{parse_agent_decision, parse_single_delegate_object}
use dogpile.Decisions.Reading.{ParseContext, Texts}
use dogpile.Decisions.Allowed.{
  Optionally, MayFollow, Returns, IsFilled, IsModelFor, IsAllowed, IsWithinDepth, SetsCountsOnly,
}
use dogpile.Decisions.Parser.{parse_agent_decision-Returns}
use dogpile.Decisions.Encode.{
  HasSafeCaps, HasSafeCounts, encode, parse_single_delegate_object-encode,
}

abbrev context : ParseContext
context = record { current_depth = some 1; max_depth = some 4; parent_provider_id = some "p" }

abbrev order : DelegateDecision ℕ
order = record {
  protocol = Protocol.shared;
  intent = "dig";
  model = some "p";
  budget = some (record {
    max_usd = none;
    max_tokens = some 50;
    max_iterations = none;
    timeout_ms = some 0;
    quality_weight = none;
  });
  max_concurrent_children = some 2;
}

order-HasSafeCounts : HasSafeCounts order
unfolding HasSafeCounts HasSafeCaps Optionally
order-HasSafeCounts = ((omega arith, omega arith, tt), omega arith)

order-IsAllowed : IsAllowed context order
unfolding IsAllowed IsFilled Optionally IsModelFor SetsCountsOnly IsWithinDepth
order-IsAllowed = (refl, (refl, refl), (refl, refl), omega arith, omega arith)

-- An output whose delegate block parses to the order.
abbrev texts : Texts ℕ
texts = record {
  json_parse = λ s. ok (encode order);
  quote = λ s. s;
  cut = λ s. none;
  delegate_block = λ s. some s;
  role_selected = λ s. none;
  participation = λ s. none;
  rationale = λ s. none;
  contribution = λ s. none;
}

trim_dig : trim "dig" ≡ "dig"
unfolding trim
trim_dig = refl

parse_single_delegate_object-encode_example :
    parse_single_delegate_object texts context (encode order) ≡ ok order
parse_single_delegate_object-encode_example =
    parse_single_delegate_object-encode whole_js-HasWhole texts context order trim_dig
      order-IsAllowed order-HasSafeCounts

parse_agent_decision-Returns_example :
    Returns (Optionally (MayFollow context)) (parse_agent_decision texts context "delegate")
parse_agent_decision-Returns_example = parse_agent_decision-Returns texts context "delegate"
