-- ===== src/Samples.antt =====
-- A runtime for the tests: whole numbers, on which every text is in lower case already.
use dogpile.Base.{
  ℕ, ◌+◌, ◌-◌, ◌*◌, ◌/◌, true, false, min, max, Js, IsOrdered, HasTextOrder, HasWhole, HasScaling,
  ◌≡◌, HasMin, ◌⊎◌, ◌<◌, ltb→lt, zero, suc, refl, HasRealMin, ltb, leb, arith, List, [], none, some,
  String, Option,
}
use dogpile.Data.Cost.{CostSummary}
use dogpile.Data.Agent.{Protocol, BudgetTier, TranscriptEntry, sequential_config}
use dogpile.Data.Context.{EvaluationContext}
use dogpile.Data.Trace.{RunEvent, agent_turn, role_assignment, Trace, trace, of_list}

instance abbrev pub whole_js : Js ℕ
whole_js = record {
  of_nat = λ n. n;
  lt = ltb;
  le = leb;
  add = λ x y. x + y;
  sub = λ x y. x - y;
  mul = λ x y. x * y;
  div = λ x y. x / y;
  min_of = min;
  max_of = max;
  floor = λ x. x;
  abs = λ x. x;
  is_finite = λ x. true;
  whole = λ x. some x;
  is_negative_zero = λ x. false;
  to_lower = λ s. s;
  locale_le = λ a b. true;
  text_le = λ a b. true;
  show_nat = λ n. "7";
  show = λ n. "7";
  to_fixed = λ x. "0.1";
}

pub whole_js-IsOrdered : IsOrdered whole_js
whole_js-IsOrdered = record {
  le_trans = λ x y z p q. ground arith;
  le_right = λ x y p. ground arith;
  min_of-left = λ x y p q. ground arith;
  min_of-above = λ z x y p q. ground arith;
}

pub whole_js-HasTextOrder : HasTextOrder whole_js
whole_js-HasTextOrder = record {
  text_le_total = λ a b h. refl;
  zero_is_finite = refl;
  zero_is_plain = refl;
}

pub whole_js-HasWhole : HasWhole whole_js
whole_js-HasWhole = record { whole-of_nat = λ n h. refl }

pub whole_js-HasMin : HasMin whole_js
whole_js-HasMin = record { lt-min_of = λ x y z. ground arith }

min-either : (x y : ℕ) → (min x y ≡ x) ⊎ (min x y ≡ y)
min-either x y = ground arith

below_one : (x r : ℕ) → r < 1 → leb (x * r) x ≡ true
below_one x zero h = ground arith
below_one x (suc r) h = absurd (omega (arith, h))

pub whole_js-HasRealMin : HasRealMin whole_js
whole_js-HasRealMin = record {
  min_of-either = λ x y p q. min-either x y;
  min_of-first = λ x y p q. ground arith;
  min_of-second = λ x y p q. ground arith;
  le_lt_trans = λ x y z p q. ground arith;
}

-- A factor below one is zero.
pub whole_js-HasScaling : HasScaling whole_js
whole_js-HasScaling = record {
  floor_le = λ x y p. p;
  mul_le = λ x m r p q finite u v. below_one x r (ltb→lt r 1 v);
}

abbrev pub cost_of : ℕ → ℕ → CostSummary ℕ
cost_of usd tokens = record {
  usd = usd;
  input_tokens = tokens;
  output_tokens = 0;
  total_tokens = tokens;
}

abbrev pub entry : String → String → TranscriptEntry ℕ
entry agent output = record {
  agent_id = agent;
  role = "writer";
  input = "go";
  output = output;
  decision = none;
  tool_calls = none;
}

-- A sequential run after the given outputs, with a floor of three turns.
abbrev pub context_of : ℕ → ℕ → List (TranscriptEntry ℕ) → Option ℕ → EvaluationContext ℕ
context_of usd spent transcript quality = record {
  run_id = "run";
  protocol = Protocol.sequential;
  protocol_config = some (sequential_config (record { max_turns = some 8; min_turns = some 3 }));
  tier = BudgetTier.fast;
  cost = cost_of usd spent;
  events = [];
  transcript = transcript;
  iteration = none;
  protocol_iteration = none;
  elapsed_ms = some 40;
  budget = none;
  remaining_budget = none;
  quality = quality;
  judge_decision = none;
  metadata = none;
}

-- A turn of an agent that has spent the given amount by then.
abbrev pub turn_event : String → String → ℕ → RunEvent ℕ
turn_event agent output spent = agent_turn (record {
  run_id = "run";
  parent_run_ids = none;
  at = "t1";
  agent_id = agent;
  role = "writer";
  input = "go";
  output = output;
  decision = none;
  cost = cost_of spent spent;
})

abbrev pub role_event : String → RunEvent ℕ
role_event agent =
    role_assignment (record {
      run_id = "run";
      parent_run_ids = none;
      at = "t0";
      agent_id = agent;
      role = "writer";
    })

-- A finished sequential run with the given events, a cap of 20 and a final cost of 9.
abbrev pub trace_with : List (RunEvent ℕ) → Trace ℕ
trace_with events =
    trace
      (record {
        run_id = "run";
        protocol = Protocol.sequential;
        tier = BudgetTier.fast;
        model_provider_id = "model";
        agents_used = [];
        inputs = record {
          intent = "write";
          protocol = sequential_config (record { max_turns = some 8; min_turns = none });
          tier = BudgetTier.fast;
          model_provider_id = "model";
          agents = [];
          temperature = 0;
        };
        budget = record {
          tier = BudgetTier.fast;
          caps = some (record {
            max_usd = some 20;
            max_tokens = none;
            max_iterations = none;
            timeout_ms = none;
            quality_weight = none;
          });
          termination = none;
        };
        budget_state_changes = [];
        seed = record { value = none };
        protocol_decisions = [];
        provider_calls = [];
        final_output = record {
          output = "done";
          cost = cost_of 9 9;
          completed_at = "t9";
          transcript = record { entry_count = 0; last_entry_index = none };
        };
        triggering_failure_for_abort_mode = none;
        transcript = [];
      })
      (of_list events)

-- Fractions in billionths, so that the source's 1e-9 is the least of them.
abbrev pub nano_js : Js ℕ
nano_js = record whole_js { of_nat = λ n. n * 1000000000; div = λ x y. x * 1000000000 / y }
