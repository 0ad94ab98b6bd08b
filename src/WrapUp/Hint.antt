-- ===== src/WrapUp/Hint.antt =====
-- `createWrapUpHintController` of src/runtime/wrap-up.ts. The controller's state is its `emitted`
-- flag, passed in and out of `inject`.
pub mod Once
use Prim.Native.String.{◌++◌ as str_append}
use dogpile.Base.{
  ℕ, ◌-◌, Bool, true, false, ◌&&◌, ◌||◌, not, Option, none, some, get_or, String, List, [], ◌∷◌, Js,
  leb, ltb, ◌==◌, if◌then◌else◌, length,
}
use dogpile.Data.Json.{Json}
use dogpile.Data.Cost.{CostSummary}
use dogpile.Data.Agent.{BudgetCaps, BudgetTier, Protocol, ProtocolConfig, TranscriptEntry}
use dogpile.Data.Condition.{TerminationCondition}
use dogpile.Data.Context.{EvaluationContext, RemainingBudget}
use dogpile.Data.Model.{ModelMessage, MessageRole, system}
use dogpile.Data.Trace.{RunEvent}
use dogpile.WrapUp.Caps.{effective_wrap_up_budget}

-- `inject` is the caller's builder of the text, where there is one.
pub record HintConfig (F : Type 0) : Type 0 where
  pub at_iteration : Option ℕ
  pub at_fraction : Option F
  pub inject : Option (EvaluationContext F → String)

pub record ControllerOptions (F : Type 0) : Type 0 where
  pub tier : BudgetTier
  pub budget : Option (BudgetCaps F)
  pub terminate : Option (TerminationCondition F)
  pub wrap_up_hint : Option (HintConfig F)

pub record ContextOptions (F : Type 0) : Type 0 where
  pub run_id : String
  pub protocol : Protocol
  pub protocol_config : Option ProtocolConfig
  pub cost : CostSummary F
  pub events : List (RunEvent F)
  pub transcript : List (TranscriptEntry F)
  pub iteration : Option ℕ
  pub protocol_iteration : Option ℕ
  pub elapsed_ms : Option ℕ
  pub metadata : Option (Json F)

-- `Math.max(0, limit - current)` of whole numbers, where both are there.
left_of : Option ℕ → Option ℕ → Option ℕ
left_of none current = none
left_of (some limit) none = none
left_of (some limit) (some current) = some (limit - current)

at_iteration_reached : Option ℕ → ℕ → Bool
at_iteration_reached none iteration = false
at_iteration_reached (some n) iteration = leb n iteration

module _ {F : Type 0} ⦃js : Js F⦄ where
  usd_left : Option F → F → Option F
  usd_left none spent = none
  usd_left (some limit) spent = some (js.max_of (js.of_nat 0) (js.sub limit spent))

  unfoldable pub remaining_budget :
      BudgetCaps F → CostSummary F → Option ℕ → Option ℕ → RemainingBudget F
  unfolding left_of usd_left
  remaining_budget budget cost iteration elapsed_ms = record {
    iterations = left_of budget.max_iterations iteration;
    timeout_ms = left_of budget.timeout_ms elapsed_ms;
    usd = usd_left budget.max_usd cost.usd;
    tokens = left_of budget.max_tokens (some cost.total_tokens);
  }

  remaining_of :
      Option (BudgetCaps F) → CostSummary F → Option ℕ → Option ℕ → Option (RemainingBudget F)
  unfolding remaining_budget
  remaining_of none cost iteration elapsed_ms = none
  remaining_of (some budget) cost iteration elapsed_ms =
      some (remaining_budget budget cost iteration elapsed_ms)

  unfoldable pub wrap_up_evaluation_context :
      ContextOptions F → BudgetTier → Option (BudgetCaps F) → EvaluationContext F
  unfolding remaining_of
  wrap_up_evaluation_context options tier budget =
      let iteration = get_or options.iteration (length options.transcript) in
      record {
        run_id = options.run_id;
        protocol = options.protocol;
        protocol_config = options.protocol_config;
        tier = tier;
        cost = options.cost;
        events = options.events;
        transcript = options.transcript;
        iteration = some iteration;
        protocol_iteration = options.protocol_iteration;
        elapsed_ms = options.elapsed_ms;
        budget = budget;
        remaining_budget = remaining_of budget options.cost (some iteration) options.elapsed_ms;
        quality = none;
        judge_decision = none;
        metadata = options.metadata;
      }

  -- A quotient of two whole numbers against the fraction; a limit of 0 is never reached.
  unfoldable pub cap_fraction_reached : Option ℕ → Option ℕ → F → Bool
  cap_fraction_reached none limit fraction = false
  cap_fraction_reached (some current) none fraction = false
  cap_fraction_reached (some current) (some limit) fraction =
      if limit == 0 then false else js.le fraction (js.div (js.of_nat current) (js.of_nat limit))

  fraction_reached : Option F → Option (BudgetCaps F) → ℕ → Option ℕ → Bool
  unfolding cap_fraction_reached
  fraction_reached none budget iteration elapsed_ms = false
  fraction_reached (some fraction) none iteration elapsed_ms = false
  fraction_reached (some fraction) (some budget) iteration elapsed_ms =
      cap_fraction_reached (some iteration) budget.max_iterations fraction
      || cap_fraction_reached elapsed_ms budget.timeout_ms fraction

  unfoldable pub should_inject_wrap_up_hint : HintConfig F → EvaluationContext F → Bool
  unfolding at_iteration_reached fraction_reached
  should_inject_wrap_up_hint hint ctx =
      let iteration = get_or ctx.iteration (length ctx.transcript) in
      at_iteration_reached hint.at_iteration iteration
      || fraction_reached hint.at_fraction ctx.budget iteration ctx.elapsed_ms

unfoldable pub format_remaining_time : {F : Type 0} → Js F → ℕ → String
format_remaining_time js timeout_ms =
    if ltb timeout_ms 1000
    then str_append (js.show_nat timeout_ms) "ms"
    else str_append (js.to_fixed (js.div (js.of_nat timeout_ms) (js.of_nat 1000))) "s"

iterations_part : (ℕ → String) → Option ℕ → List String → List String
iterations_part show none rest = rest
iterations_part show (some n) rest =
    str_append (show n) (if n == 1 then " turn remaining" else " turns remaining") ∷ rest

time_part : (ℕ → String) → Option ℕ → List String
time_part format none = []
time_part format (some ms) = str_append (format ms) " remaining" ∷ []

hint_parts : {F : Type 0} → Js F → Option (RemainingBudget F) → List String
unfolding format_remaining_time iterations_part time_part
hint_parts js none = []
hint_parts js (some r) =
    iterations_part js.show_nat r.iterations (time_part (format_remaining_time js) r.timeout_ms)

join_and : List String → String
join_and [] = ""
join_and (p ∷ []) = p
join_and (p ∷ q ∷ ps) = str_append p (str_append " and " (join_and (q ∷ ps)))

remaining_text : List String → String
unfolding join_and
remaining_text [] = "You are approaching a configured hard limit."
remaining_text (p ∷ ps) =
    str_append "You are approaching a hard limit with " (str_append (join_and (p ∷ ps)) ".")

-- The first message, an empty system message where there is none, then the hint, then the rest.
unfoldable pub insert_hint : String → List ModelMessage → List ModelMessage
insert_hint content [] =
    record { role = system; content = "" } ∷ record { role = system; content = content } ∷ []
insert_hint content (m ∷ rest) = m ∷ record { role = system; content = content } ∷ rest

module _ {F : Type 0} ⦃js : Js F⦄ where
  unfoldable pub default_wrap_up_hint : EvaluationContext F → String
  unfolding hint_parts remaining_text
  default_wrap_up_hint ctx = str_append "[wrap-up] " (
      str_append (remaining_text (hint_parts js ctx.remaining_budget))
        " If you have enough context, package your work now and return a final-ready answer.")

  -- The context of the method `context`, which `inject` builds too.
  unfoldable pub controller_context : ControllerOptions F → ContextOptions F → EvaluationContext F
  unfolding wrap_up_evaluation_context
  controller_context options context =
      wrap_up_evaluation_context context options.tier
        (effective_wrap_up_budget options.budget options.terminate)

  -- The messages and the flag after the call, for a controller with a hint that is not emitted yet.
  inject_hint : HintConfig F → EvaluationContext F → List ModelMessage → List ModelMessage × Bool
  unfolding should_inject_wrap_up_hint insert_hint
  inject_hint hint ctx messages =
      if should_inject_wrap_up_hint hint ctx
      then (insert_hint (get_or hint.inject default_wrap_up_hint ctx) messages, true)
      else (messages, false)

  inject_with :
      Option (HintConfig F)
      → Bool
      → EvaluationContext F
      → List ModelMessage
      → List ModelMessage × Bool
  unfolding inject_hint
  inject_with none emitted ctx messages = (messages, emitted)
  inject_with (some hint) true ctx messages = (messages, true)
  inject_with (some hint) false ctx messages = inject_hint hint ctx messages

  unfoldable pub inject :
      ControllerOptions F → Bool → List ModelMessage → ContextOptions F → List ModelMessage × Bool
  unfolding inject_with controller_context
  inject options emitted messages context =
      inject_with options.wrap_up_hint emitted (controller_context options context) messages
