-- ===== src/Data/Trace.antt =====
-- Run events, traces and results (src/types/events.ts, src/types.ts). A completed or failed
-- sub-run holds the trace of the child, so the three types and the array of events are one block.
use dogpile.Base.{List, [], ◌∷◌}
use dogpile.Data.Cost.{CostSummary}
use dogpile.Data.Event.{
  RoleAssignmentEvent, ModelRequestEvent, ModelResponseEvent, ModelOutputChunkEvent, ToolCallEvent,
  ToolResultEvent, TurnEvent, BroadcastEvent, BudgetStopEvent, FinalEvent, SubRunIds,
  SubRunStartedEvent, SubRunErrorPayload, SubRunParentAbortedEvent, SubRunBudgetClampedEvent,
  SubRunQueuedEvent, SubRunConcurrencyClampedEvent,
}
use dogpile.Data.Replay.{EventType, TraceFields, ResultFields}

mutual
  pub data RunEvent (F : Type 0) : Type 0 where
    role_assignment : RoleAssignmentEvent → RunEvent F
    model_request : ModelRequestEvent F → RunEvent F
    model_response : ModelResponseEvent F → RunEvent F
    model_output_chunk : ModelOutputChunkEvent → RunEvent F
    tool_call : ToolCallEvent F → RunEvent F
    tool_result : ToolResultEvent F → RunEvent F
    agent_turn : TurnEvent F → RunEvent F
    broadcast : BroadcastEvent F → RunEvent F
    sub_run_started : SubRunStartedEvent → RunEvent F
    sub_run_completed : SubRunIds → RunResult F → RunEvent F
    sub_run_failed : SubRunIds → SubRunErrorPayload F → Trace F → CostSummary F → RunEvent F
    sub_run_parent_aborted : SubRunParentAbortedEvent → RunEvent F
    sub_run_budget_clamped : SubRunBudgetClampedEvent → RunEvent F
    sub_run_queued : SubRunQueuedEvent → RunEvent F
    sub_run_concurrency_clamped : SubRunConcurrencyClampedEvent → RunEvent F
    budget_stop : BudgetStopEvent F → RunEvent F
    final : FinalEvent F → RunEvent F

  pub data Events (F : Type 0) : Type 0 where
    nil : Events F
    cons : RunEvent F → Events F → Events F

  pub data Trace (F : Type 0) : Type 0 where
    trace : TraceFields F → Events F → Trace F

  -- The events of the log are those of the last argument.
  pub data RunResult (F : Type 0) : Type 0 where
    run_result : ResultFields F → Trace F → Events F → RunResult F

module _ {F : Type 0} where
  abbrev pub to_list : Events F → List (RunEvent F)
  to_list nil = []
  to_list (cons e es) = e ∷ to_list es

  abbrev pub of_list : List (RunEvent F) → Events F
  of_list [] = nil
  of_list (e ∷ es) = cons e (of_list es)

  abbrev pub fields_of : Trace F → TraceFields F
  fields_of (trace t es) = t

  abbrev pub events_of : Trace F → List (RunEvent F)
  events_of (trace t es) = to_list es

  abbrev pub result_fields : RunResult F → ResultFields F
  result_fields (run_result r t es) = r

  abbrev pub trace_of : RunResult F → Trace F
  trace_of (run_result r t es) = t

  -- `event.type`.
  abbrev pub type_of : RunEvent F → EventType
  type_of (role_assignment e) = EventType.role_assignment
  type_of (model_request e) = EventType.model_request
  type_of (model_response e) = EventType.model_response
  type_of (model_output_chunk e) = EventType.model_output_chunk
  type_of (tool_call e) = EventType.tool_call
  type_of (tool_result e) = EventType.tool_result
  type_of (agent_turn e) = EventType.agent_turn
  type_of (broadcast e) = EventType.broadcast
  type_of (sub_run_started e) = EventType.sub_run_started
  type_of (sub_run_completed ids r) = EventType.sub_run_completed
  type_of (sub_run_failed ids e t c) = EventType.sub_run_failed
  type_of (sub_run_parent_aborted e) = EventType.sub_run_parent_aborted
  type_of (sub_run_budget_clamped e) = EventType.sub_run_budget_clamped
  type_of (sub_run_queued e) = EventType.sub_run_queued
  type_of (sub_run_concurrency_clamped e) = EventType.sub_run_concurrency_clamped
  type_of (budget_stop e) = EventType.budget_stop
  type_of (final e) = EventType.final
