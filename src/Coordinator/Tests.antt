-- ===== src/Coordinator/Tests.antt =====
-- Conditions on the coordinator at concrete runs.
use dogpile.Base.{ℕ, true, some, [], ◌∷◌, ◌≡◌, refl, length, arith}
use dogpile.Coordinator.Semaphore.{acquire, create_semaphore}
use dogpile.Coordinator.Semaphore.Fair.{
  World, start, after_acquire, after_release, Reachable, started, step, acquires, IsFair,
  Reachable-IsFair,
}
use dogpile.Coordinator.Semaphore.Drain.{
  Releases, finished, next, Releases-admit, CanDrain, Reachable-CanDrain,
}
use dogpile.Samples.{whole_js}
use dogpile.Coordinator.Timeout.{DispatchOptions, ChildTimeout, dispatch_timeout, resolve_timeout}
use dogpile.Coordinator.Timeout.Deadline.{DepthAllowed, IsWithin, dispatch_timeout-IsWithin}

-- Two places and three calls.
abbrev busy : World
busy = after_acquire 2 3 (after_acquire 2 2 (after_acquire 2 1 start))

three_calls : Reachable 2 busy
three_calls = step (step (step started (acquires _ 1)) (acquires _ 2)) (acquires _ 3)

Reachable-IsFair_example : IsFair 2 busy
Reachable-IsFair_example = Reachable-IsFair 2 three_calls

-- The second call releases first.
second-Releases : Releases busy 1 (after_release (1 ∷ []) busy)
unfolding acquire create_semaphore
second-Releases = next (1 ∷ []) 2 [] refl (finished _)

Releases-admit_example :
    ((after_release (1 ∷ []) busy).semaphore.waiters ≡ [])
    × ((after_release (1 ∷ []) busy).granted ≡ busy.requested)
unfolding acquire create_semaphore
Releases-admit_example = Releases-admit 2 three_calls second-Releases (omega arith)

Reachable-CanDrain_example : CanDrain 2 busy (length busy.semaphore.waiters)
Reachable-CanDrain_example = Reachable-CanDrain 2 busy (omega arith) three_calls

-- A delegate that asks for 900 where 600 are left.
abbrev greedy : DispatchOptions
greedy = record {
  parent_depth = 0;
  effective_max_depth = some 4;
  decision_timeout_ms = some 900;
  parent_deadline_ms = some 1000;
  default_sub_run_timeout_ms = some 50;
  has_run_protocol = true;
  model_id = "model";
  child_run_id = "child";
  parent_run_id = "run";
  parent_decision_id = "0";
}

abbrev cut_short : ChildTimeout
cut_short = record { child_timeout_ms = some 600; clamped_from = some 900 }

dispatch_timeout_example : DepthAllowed (some 4) 0 × IsWithin 400 1000 (some 900) cut_short
unfolding dispatch_timeout resolve_timeout
dispatch_timeout_example = dispatch_timeout-IsWithin {F = ℕ} greedy 400 1000 cut_short refl refl
