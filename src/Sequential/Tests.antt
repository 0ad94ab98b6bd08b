-- ===== src/Sequential/Tests.antt =====
-- A run of two agents whose model answers at a cost of 3, with a limit of one turn.
use dogpile.Base.{ℕ, some, none, String, [], ◌∷◌, ◌≡◌, refl}
use dogpile.Base.Result.{Result, ok, err}
use dogpile.Data.Json.{null}
use dogpile.Data.Agent.{BudgetTier, AgentSpec, Protocol}
use dogpile.Data.Error.{Thrown}
use dogpile.Data.Trace.{RunResult, run_result, nil, result_fields, trace_of}
use dogpile.Accounting.Recompute.{recompute_accounting_from_trace}
use dogpile.Samples.{nano_js, cost_of, trace_with}
use dogpile.Sequential.{
  SequentialRunOptions, initial_state, active_agents, final_output, assign_roles, emit_decided,
  role_assigned, output_of, undecided, response_cost,
}
use dogpile.Sequential.Stop.{stop_if_needed, test_stop}
use dogpile.Sequential.Turn.{
  run_turn, answer, turn_options, as_thrown, use_tools, finish_turn, with_tools, after_model,
  after_tools_state, turn_taken, entry_of,
}
use dogpile.ModelTurn.{
  generate_model_turn, started_turn, run_model, generated, complete, record_provider_call,
}
use dogpile.Decisions.{
  is_participating_decision, parse_agent_decision, parse_block, parse_participate_decision,
}
use dogpile.Decisions.Reading.{match_line, as_decision}
use dogpile.Base.{str_eq, if◌then◌else◌}
use dogpile.Tools.Calls.{no_error}
use dogpile.Tools.{execute_model_response_tool_requests, execute_requests}
use dogpile.Health.{compute_health, assert_finite_non_negative, assert_budget_near_miss}
use dogpile.Accounting.{create_run_metadata, create_run_accounting}
use dogpile.Data.Cost.{empty_cost, add_cost}
use dogpile.Sequential.Run.{
  run_sequential, run_turns, with_final, result_of_state, unless_stopped, finish, final_event,
}
use dogpile.Sequential.Turns.{Tells, run_sequential-Tells}
use dogpile.Sequential.Integrity.{IsAmount, run_sequential-recompute}

abbrev agent : String → AgentSpec
agent id = record { id = id; role = "writer"; instructions = none }

abbrev options : SequentialRunOptions ℕ
options = record {
  intent = "write";
  limits = record { max_turns = some 1; min_turns = none };
  tier = BudgetTier.fast;
  model = record {
    id = "p";
    model_id = none;
    generate = λ r. ok (record {
      text = "hello";
      finish_reason = none;
      tool_requests = none;
      usage = none;
      cost_usd = some 3;
      metadata = none;
    });
    stream = none;
  };
  agents = agent "a" ∷ agent "b" ∷ [];
  tools =
      record {
        identity = record {
          id = "calc";
          name = "calculator";
          namespace = none;
          version = none;
          description = none;
        };
        manifest = null;
        validate_input = some (λ input. ok none);
        execute = λ n input context. err (no_error "string");
      }
      ∷ [];
  temperature = 0;
  budget = none;
  seed = none;
  terminate = none;
  wrap_up_hint = none;
  run_id = "run";
  event_at = λ n. "t";
  turn_at = λ turn n. "t";
  check = λ p. ok tt;
  elapsed_ms = λ p. 0;
  elapsed_at_stop = λ p. 1;
  texts = record {
    json_parse = λ s. err "no";
    quote = λ s. s;
    cut = λ s. none;
    delegate_block = λ s. if str_eq s "delegate" then some "{" else none;
    role_selected = λ s. none;
    participation = λ s. none;
    rationale = λ s. none;
    contribution = λ s. none;
  };
  stringify = record { stringify = λ j. "json"; result_json = λ r. null };
  copy_json = λ j. j;
}

abbrev outcome : Result (Thrown ℕ) (RunResult ℕ)
outcome = run_sequential ⦃js = nano_js⦄ options

abbrev empty_trace : RunResult ℕ
empty_trace =
    run_result
      (record {
        output = "";
        transcript = [];
        usage = cost_of 0 0;
        metadata = create_run_metadata {F = ℕ} "run" Protocol.sequential BudgetTier.fast "p" [] [];
        accounting =
            create_run_accounting ⦃js = nano_js⦄ BudgetTier.fast none none (cost_of 0 0) [];
        cost = cost_of 0 0;
        quality = none;
        evaluation = none;
        health = record {
          anomalies = [];
          total_turns = 0;
          agent_count = 0;
          budget_utilization_pct = none;
        };
      })
      (trace_with []) nil

abbrev result_or : {E A : Type 0} → Result E A → A → A
result_or (ok a) b = a
result_or (err e) b = b

abbrev returned : RunResult ℕ
returned = result_or outcome empty_trace

options_output : (result_fields returned).output ≡ "hello"
unfolding run_sequential run_turns active_agents stop_if_needed test_stop assign_roles emit_decided
    initial_state unless_stopped run_turn answer generate_model_turn started_turn turn_options
    run_model generated complete record_provider_call as_thrown with_tools parse_agent_decision
    parse_block parse_participate_decision match_line as_decision use_tools finish result_of_state
    compute_health assert_finite_non_negative assert_budget_near_miss finish_turn after_model
    response_cost final_output output_of undecided with_final after_tools_state
    execute_model_response_tool_requests execute_requests role_assigned turn_taken entry_of
    final_event empty_cost add_cost is_participating_decision
options_output = refl

options_return : outcome ≡ ok returned
unfolding run_sequential run_turns active_agents stop_if_needed test_stop assign_roles emit_decided
    initial_state unless_stopped run_turn answer generate_model_turn started_turn turn_options
    run_model generated complete record_provider_call as_thrown with_tools parse_agent_decision
    parse_block parse_participate_decision match_line as_decision use_tools finish result_of_state
    compute_health assert_finite_non_negative assert_budget_near_miss finish_turn after_model
    response_cost final_output output_of undecided with_final after_tools_state
    execute_model_response_tool_requests execute_requests role_assigned turn_taken entry_of
    final_event empty_cost add_cost is_participating_decision
options_return = refl

returned-IsAmount : IsAmount ⦃js = nano_js⦄ (result_fields returned).cost.usd
unfolding run_sequential run_turns active_agents stop_if_needed test_stop assign_roles emit_decided
    initial_state unless_stopped run_turn answer generate_model_turn started_turn turn_options
    run_model generated complete record_provider_call as_thrown with_tools parse_agent_decision
    parse_block parse_participate_decision match_line as_decision use_tools finish result_of_state
    compute_health assert_finite_non_negative assert_budget_near_miss finish_turn after_model
    response_cost final_output output_of undecided with_final after_tools_state
    execute_model_response_tool_requests execute_requests role_assigned turn_taken entry_of
    final_event empty_cost add_cost is_participating_decision IsAmount
returned-IsAmount = (refl, refl)

run_sequential-recompute_example :
    recompute_accounting_from_trace ⦃js = nano_js⦄ (trace_of returned)
    ≡ ok (result_fields returned).accounting
run_sequential-recompute_example =
    run_sequential-recompute ⦃js = nano_js⦄ options returned options_return returned-IsAmount

run_sequential-Tells_example : Tells ⦃js = nano_js⦄ options returned
run_sequential-Tells_example = run_sequential-Tells ⦃js = nano_js⦄ options returned options_return
