-- ===== src/WrapUp.antt =====
-- src/runtime/wrap-up.ts: the caps that a wrap-up hint looks at and the once-only hint.
pub mod Caps
pub mod Hint
mod Tests
