-- ===== src/Lib.antt =====
-- Dogpile runs a group of model-backed agents on one intent under a coordination protocol, records
-- every step as an event and returns the result with a trace. This library models the parts of it
-- that decide: the sequential run with its turns and tools, when a run stops, when a turn is told to
-- wrap up, when a failed model call is tried again, what an agent's output is taken for, how many
-- delegated runs go on at once, and what is derived from a trace and checked in it afterwards.
--
-- The parts and their files, with paths from the root of the repository:
-- - Data: the public types of src/types.ts, src/types/events.ts and src/types/replay.ts. A struct is
--   a record, a union a data type, an optional property an Option. A completed or failed sub-run
--   holds a trace again, so events, traces and results are one mutual block (Data.Trace).
-- - Termination: src/runtime/termination.ts. `evaluateTermination` and `evaluateFirstOf` are
--   `evaluate_termination` and `evaluate_first_of` (Termination.Evaluate), which call the floor
--   (Floor), the caps (Budget), the similarity of outputs (Convergence, Similarity) and the judge
--   (Judge). `evaluateTerminationStop` makes the record for the terminal event. Combine has
--   `combineTerminationDecisions` and Warning `warnOnProtocolTerminationMisconfiguration`.
-- - WrapUp: src/runtime/wrap-up.ts. Caps merges the caps of the caller and of the condition, and has
--   the readings of the same values by src/runtime/engine.ts. Hint is the controller, whose state is
--   one flag that `inject` takes and returns.
-- - Retry: src/runtime/retry.ts. The loop of `generate` recurses on the attempts that are left, which
--   are `maxAttempts` at the start, as the source's counter bounds it.
-- - Coordinator: of src/runtime/coordinator.ts the timeout of a delegated run (`dispatch_timeout`, the
--   start of `dispatchDelegate`) and the semaphore, as functions on its counter and queue
--   and, with its clients, as a relation of steps.
-- - Sequential: `runSequential` of src/runtime/sequential.ts. The variables of the run are the record
--   `SequentialState`; Stop is `stopIfNeeded`, Turn one turn, Run the loop over the agents, the final
--   event, the trace and the result. Steps, Local, Said, Turns, Returns and Integrity are proofs.
-- - ModelTurn: `generateModelTurn` of src/runtime/model.ts, generated or streamed, whose outcome has the
--   events it emits and the call it records, also where it fails.
-- - Tools: the executor of src/runtime/tools.ts, whose state is the count of its calls, and the
--   normalization of thrown errors of src/runtime/tools/built-in.ts. A validator that throws ends the
--   executor and the run with its error.
-- - Decisions: the parser of src/runtime/decisions.ts; Reading has its fields. Parts and Parser say
--   what it accepts, Encode writes a delegate so that it is read back.
-- - Cancellation: src/runtime/cancellation.ts.
-- - Accounting: of src/runtime/defaults.ts the accounting, the changes of the budget, the metadata, and
--   (Recompute) `recomputeAccountingFromTrace`, which recurses into the traces of sub-runs.
-- - Replay: of src/runtime/defaults.ts the protocol decisions and the other parts of a trace, and
--   (Canonical) `canonicalizeSerializable`.
-- - AgentOrder: of src/runtime/defaults.ts `defaultAgents` and `orderAgentsForTemperature` with its
--   seeded hash, in 32-bit integers. The sort is stable, as the language documents it (Base.Sorting).
-- - Introspection, Audit, Health: `queryEvents`, `createAuditRecord` and `computeHealth`, the pure
--   functions of src/runtime/introspection.ts, audit.ts and health.ts on a trace.
-- - Base and Samples: shared helpers, and the runtime and the values that the tests use.
--
-- Numbers: what is whole and not negative in the source (tokens, turns, iterations, milliseconds) is
-- a natural number without a bound, also the elapsed milliseconds and `maxAttempts`, which the source
-- does not round; every other `number` is of a type F, whose operations and the
-- runtime's texts (`toLowerCase`, `localeCompare`, formats) are the record `Js`. No law of floats is
-- assumed but where a theorem names it: `HasMin`, what it is to be below `Math.min`, and
-- `IsOrdered` and `HasRealMin`, the order of the numbers that are not NaN and their minimum. A
-- `throw` is a value (`Result`). `HasScaling` is `Math.floor` and the product with a
-- factor in [0, 1). `HasTextOrder` and `HasWhole` are the order of `sort()` and the whole numbers below
-- 2^53, as the language documents them; `HasCollation` is the order of `localeCompare`, which may hold
-- distinct texts for equal. An optional property that is absent and one that is
-- `undefined` are the same.
-- All recursion is structural; there is no fuel but the attempts above.
--
-- The provider, the abort signal, random numbers and the sleep of a retry are parameters, asked by
-- the number of the attempt; the caller's callbacks that only observe (`onRetry`) are actions in a
-- log. In a run, the clock is asked by the number of the event, the signal and the passed time by the
-- point of the run (`Point`); regular expressions, `JSON.parse` and `JSON.stringify` are parameters. Not
-- modelled: the shared and broadcast runs, the coordinator's run and its waves around the semaphore, the
-- engine's abort and stream handling, validation of options, tool adapters and their manifests,
-- the adapters of model providers, tracing, metrics and logging, and the benchmark runner.
pub mod Base
pub mod Data
pub mod Samples
pub mod Accounting
pub mod AgentOrder
pub mod Audit
pub mod Cancellation
pub mod Coordinator
pub mod Decisions
pub mod Health
pub mod Introspection
pub mod ModelTurn
pub mod Replay
pub mod Retry
pub mod Sequential
pub mod Termination
pub mod Tools
pub mod WrapUp
