-- ===== src/Data.antt =====
-- The public types of src/types.ts, src/types/events.ts and src/types/replay.ts.
pub mod Json
pub mod Cost
pub mod Agent
pub mod Condition
pub mod Model
pub mod Event
pub mod Replay
pub mod Trace
pub mod Context
pub mod Error
