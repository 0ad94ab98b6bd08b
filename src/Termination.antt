-- ===== src/Termination.antt =====
-- src/runtime/termination.ts, a module for each evaluator.
pub mod Similarity
pub mod Floor
pub mod Budget
pub mod Convergence
pub mod Judge
pub mod Evaluate
pub mod Combine
pub mod Warning
mod Tests
