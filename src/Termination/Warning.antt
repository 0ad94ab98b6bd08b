-- ===== src/Termination/Warning.antt =====
-- `warnOnProtocolTerminationMisconfiguration` of src/runtime/termination.ts. The warning is its two
-- numbers; the text around them is not modelled.
pub mod Stops
use dogpile.Base.{ℕ, ltb, min, Option, none, some, if◌then◌else◌}
use dogpile.Data.Agent.{
  ProtocolConfig, sequential_config, coordinator_config, broadcast_config, shared_config,
}
use dogpile.Data.Condition.{TerminationCondition, Conditions, nil, cons}

pub record Warning : Type 0 where
  pub min_turns : ℕ
  pub max_iterations : ℕ

pub protocol_min_turns : ProtocolConfig → Option ℕ
protocol_min_turns (broadcast_config r) = none
protocol_min_turns (coordinator_config t) = t.min_turns
protocol_min_turns (sequential_config t) = t.min_turns
protocol_min_turns (shared_config t memory) = t.min_turns

-- One round of the loop over a `firstOf`.
unfoldable pub smaller_budget : Option ℕ → Option ℕ → Option ℕ
smaller_budget smallest none = smallest
smaller_budget none (some budget) = some budget
smaller_budget (some smallest) (some budget) = some (min smallest budget)

warning_for : Option ℕ → Option ℕ → Option Warning
warning_for none limit = none
warning_for (some min_turns) none = none
warning_for (some min_turns) (some limit) =
    if ltb limit min_turns
    then some (record { min_turns = min_turns; max_iterations = limit })
    else none

module _ {F : Type 0} where
  unfoldable mutual
    unfolding smaller_budget

    pub smallest_iteration_budget : TerminationCondition F → Option ℕ
    smallest_iteration_budget (TerminationCondition.budget b) = b.max_iterations
    smallest_iteration_budget (TerminationCondition.convergence c) = none
    smallest_iteration_budget (TerminationCondition.judge j) = none
    smallest_iteration_budget (TerminationCondition.first_of cs) = smallest_of_children cs none

    pub smallest_of_children : Conditions F → Option ℕ → Option ℕ
    smallest_of_children nil smallest = smallest
    smallest_of_children (cons c cs) smallest =
        smallest_of_children cs (smaller_budget smallest (smallest_iteration_budget c))

  unfoldable pub misconfiguration_warning :
      ProtocolConfig → Option (TerminationCondition F) → Option Warning
  unfolding protocol_min_turns warning_for
  misconfiguration_warning protocol none = none
  misconfiguration_warning protocol (some terminate) =
      warning_for (protocol_min_turns protocol) (smallest_iteration_budget terminate)
