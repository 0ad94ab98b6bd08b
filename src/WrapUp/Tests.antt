-- ===== src/WrapUp/Tests.antt =====
-- Conditions on wrap-up hints at concrete runs.
use dogpile.Base.{ℕ, false, ◌&&◌, List, [], ◌∷◌, none, some, ◌≡◌, refl, ◌⊎◌, take}
use dogpile.Data.Agent.{BudgetCaps, BudgetTier, Protocol}
use dogpile.Data.Condition.{BudgetCondition, TerminationCondition, nil, cons}
use dogpile.Data.Context.{EvaluationContext}
use dogpile.Data.Model.{ModelMessage, user}
use dogpile.Samples.{whole_js, whole_js-HasMin, cost_of, entry, context_of}
use dogpile.Termination.Budget.{evaluate_budget}
use dogpile.Termination.Evaluate.Stop.{is_continue}
use dogpile.Termination.Warning.{smallest_iteration_budget}
use dogpile.WrapUp.Caps.{
  condition_from_budget, budget_caps_from_termination, effective_wrap_up_budget, runtime_timeout_ms,
}
use dogpile.WrapUp.Caps.Engine.{
  timeout_of, iterations_of, runtime_timeout_ms_lem, smallest_iteration_budget_lem,
}
use dogpile.WrapUp.Caps.Leaves.{budgets_continue, effective_wrap_up_budget-continues}
use dogpile.WrapUp.Hint.{ControllerOptions, HintConfig}
use dogpile.WrapUp.Hint.Once.{Call, inject_all, NeverHinted, HintedOnce, inject_all_cases}

abbrev wide : BudgetCaps ℕ
wide = record {
  max_usd = some 50;
  max_tokens = none;
  max_iterations = some 10;
  timeout_ms = some 900;
  quality_weight = none;
}

abbrev tight : BudgetCondition ℕ
tight = record {
  max_usd = some 20;
  max_tokens = some 500;
  max_iterations = some 4;
  timeout_ms = none;
}

abbrev quick : BudgetCondition ℕ
quick = record { max_usd = none; max_tokens = none; max_iterations = some 6; timeout_ms = some 300 }

abbrev either : TerminationCondition ℕ
either =
    TerminationCondition.first_of
      (cons (TerminationCondition.budget quick) (cons (TerminationCondition.budget tight) nil))

abbrev caps : BudgetCaps ℕ
caps = record {
  max_usd = some 20;
  max_tokens = some 500;
  max_iterations = some 4;
  timeout_ms = some 300;
  quality_weight = none;
}

abbrev one_turn : EvaluationContext ℕ
one_turn = context_of 5 120 (entry "a" "draft one" ∷ []) none

runtime_timeout_ms_example :
    timeout_of (effective_wrap_up_budget (some wide) (some either))
    ≡ runtime_timeout_ms (some wide) (some either)
runtime_timeout_ms_example = runtime_timeout_ms_lem (some wide) (some either)

smallest_iteration_budget_example :
    iterations_of (budget_caps_from_termination either) ≡ smallest_iteration_budget either
smallest_iteration_budget_example = smallest_iteration_budget_lem either

effective_wrap_up_budget_example :
    is_continue (evaluate_budget (condition_from_budget caps) one_turn)
    ≡ is_continue (evaluate_budget (condition_from_budget wide) one_turn)
      && budgets_continue either one_turn
unfolding effective_wrap_up_budget budget_caps_from_termination
effective_wrap_up_budget_example =
    effective_wrap_up_budget-continues whole_js-HasMin wide either caps one_turn refl

abbrev at_two : HintConfig ℕ
at_two = record { at_iteration = some 2; at_fraction = none; inject = some (λ ctx. "finish now") }

abbrev options : ControllerOptions ℕ
options = record {
  tier = BudgetTier.fast;
  budget = some wide;
  terminate = none;
  wrap_up_hint = some at_two;
}

abbrev prompt : List ModelMessage
prompt = record { role = user; content = "go" } ∷ []

abbrev turn : ℕ → Call ℕ
turn n = record {
  messages = prompt;
  context = record {
    run_id = "run";
    protocol = Protocol.sequential;
    protocol_config = none;
    cost = cost_of 1 10;
    events = [];
    transcript = take n (entry "a" "x" ∷ entry "b" "y" ∷ entry "c" "z" ∷ []);
    iteration = none;
    protocol_iteration = none;
    elapsed_ms = none;
    metadata = none;
  };
}

abbrev run : List (Call ℕ)
run = turn 1 ∷ turn 2 ∷ turn 3 ∷ []

inject_all_example :
    NeverHinted options at_two run (inject_all options false run)
    ⊎ HintedOnce options at_two run (inject_all options false run)
inject_all_example = inject_all_cases options at_two refl run
