-- ===== src/Coordinator/Semaphore.antt =====
-- `createSemaphore` of src/runtime/coordinator.ts. A waiter is the number of the `acquire` call whose
-- promise it resolves. `release` is called by a holder only, so `in_flight` is not 0 there.
pub mod Fair
pub mod Drain
use dogpile.Base.{ℕ, suc, ◌-◌, ltb, List, [], ◌∷◌, ◌++◌, Option, none, some, if◌then◌else◌}

pub record Semaphore : Type 0 where
  pub in_flight : ℕ
  pub waiters : List ℕ

unfoldable pub create_semaphore : Semaphore
create_semaphore = record { in_flight = 0; waiters = [] }

-- The semaphore after the call, and the call whose promise is resolved by it.
unfoldable pub acquire : ℕ → ℕ → Semaphore → Semaphore × Option ℕ
acquire max_concurrent call s =
    if ltb s.in_flight max_concurrent
    then (record { in_flight = suc s.in_flight; waiters = s.waiters }, some call)
    else (record { in_flight = s.in_flight; waiters = s.waiters ++ call ∷ [] }, none)

-- `waiters.shift()` and the call of what it returns.
wake : ℕ → List ℕ → Semaphore × Option ℕ
wake in_flight [] = (record { in_flight = in_flight; waiters = [] }, none)
wake in_flight (next ∷ rest) = (record { in_flight = suc in_flight; waiters = rest }, some next)

unfoldable pub release : Semaphore → Semaphore × Option ℕ
unfolding wake
release s = wake (s.in_flight - 1) s.waiters
