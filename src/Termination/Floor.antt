-- ===== src/Termination/Floor.antt =====
-- The floor of src/runtime/termination.ts: convergence and judge conditions wait until the protocol
-- has made enough progress.
use dogpile.Base.{ℕ, Bool, false, Option, none, some, get_or, ltb, ◌==◌, if◌then◌else◌, length}
use dogpile.Data.Agent.{
  ProtocolConfig, sequential_config, coordinator_config, broadcast_config, shared_config,
}
use dogpile.Data.Condition.{TerminationCondition}
use dogpile.Data.Context.{EvaluationContext}

unfoldable pub protocol_termination_floor : Option ProtocolConfig → Option ℕ
protocol_termination_floor none = none
protocol_termination_floor (some (broadcast_config r)) = r.min_rounds
protocol_termination_floor (some (coordinator_config t)) = t.min_turns
protocol_termination_floor (some (sequential_config t)) = t.min_turns
protocol_termination_floor (some (shared_config t memory)) = t.min_turns

-- `floor !== undefined && floor > 0 && progress < floor`.
unfoldable pub below_floor : Option ℕ → ℕ → Bool
below_floor none progress = false
below_floor (some floor) progress = if floor == 0 then false else ltb progress floor

module _ {F : Type 0} where
  unfoldable pub protocol_progress : EvaluationContext F → ℕ
  protocol_progress ctx =
      get_or ctx.protocol_iteration (get_or ctx.iteration (length ctx.transcript))

  unfoldable pub is_floor_blocked : TerminationCondition F → EvaluationContext F → Bool
  unfolding protocol_termination_floor protocol_progress below_floor
  is_floor_blocked (TerminationCondition.budget b) ctx = false
  is_floor_blocked (TerminationCondition.first_of cs) ctx = false
  is_floor_blocked (TerminationCondition.convergence c) ctx =
      below_floor (protocol_termination_floor ctx.protocol_config) (protocol_progress ctx)
  is_floor_blocked (TerminationCondition.judge j) ctx =
      below_floor (protocol_termination_floor ctx.protocol_config) (protocol_progress ctx)
