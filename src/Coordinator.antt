-- ===== src/Coordinator.antt =====
-- src/runtime/coordinator.ts: the semaphore that bounds the delegated runs of a wave, and the timeout of
-- a delegated run.
pub mod Semaphore
pub mod Timeout
mod Tests
