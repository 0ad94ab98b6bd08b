-- ===== src/Coordinator/Semaphore/Drain.antt =====
-- Waiting calls are let in by the releases of those that run.
use dogpile.Base.{
  ℕ, zero, suc, ◌-◌, ◌≤◌, ◌<◌, List, [], ◌∷◌, ◌++◌, ◌≡◌, refl, ◌∙◌, sym, ap, length, List-cases,
  arith, inl, inr,
}
use mathlib.Core.List.{append-nil}
use dogpile.Coordinator.Semaphore.{release}
use dogpile.Coordinator.Semaphore.Fair.{
  World, Reachable, step, releases, after_release, Reachable-IsFair, full,
}

-- A number of releases in a row, each by one that holds a place.
pub data Releases : World → ℕ → World → Type 0 where
  finished : (w : World) → Releases w 0 w
  next :
      {w v : World} {n : ℕ} (before : List ℕ) (call : ℕ) (after : List ℕ)
      → w.running ≡ before ++ call ∷ after
      → Releases (after_release (before ++ after) w) n v
      → Releases w (suc n) v

one_less :
    (w : World) (others : List ℕ)
    → length (after_release others w).semaphore.waiters ≡ length w.semaphore.waiters - 1
unfolding release
one_less w others = elim (List-cases w.semaphore.waiters) [
  | inl e ↦ rw e refl
  | inr (x, rest, e) ↦ rw e (omega arith)
]

nothing_left : (xs : List ℕ) → length xs ≤ 0 → xs ≡ []
nothing_left [] h = refl
nothing_left (x ∷ xs) h = absurd (omega (arith, h))

module _ (max_concurrent : ℕ) where
  -- From every reachable state: after at least as many releases as there are waiting calls, whoever
  -- releases, no call waits and all calls have been let in, in the order in which they came.
  pub Releases-admit :
      {w v : World} {n : ℕ}
      → Reachable max_concurrent w
      → Releases w n v
      → length w.semaphore.waiters ≤ n
      → (v.semaphore.waiters ≡ []) × (v.granted ≡ w.requested)
  Releases-admit r (finished w) h =
      let none_wait = nothing_left w.semaphore.waiters h in
      (
        none_wait,
        sym (append-nil w.granted)
            ∙ ap (λ x. w.granted ++ x) (sym none_wait)
            ∙ (Reachable-IsFair max_concurrent r).in_order,
      )
  Releases-admit {w = w} r (next before call after e rest) h =
      Releases-admit (step r (releases w before call after e)) rest
        (omega (arith, h, one_less w (before ++ after)))

  pub CanDrain : World → ℕ → Type 0
  CanDrain w n =
      (v : World) × Releases w n v × (v.semaphore.waiters ≡ []) × (v.granted ≡ w.requested)

  someone_runs :
      (w : World) → 0 < length w.running → (call : ℕ) × (rest : List ℕ) × (w.running ≡ call ∷ rest)
  someone_runs w h = elim (List-cases w.running) [
    | inl e ↦ absurd (omega (arith, h, ap length e))
    | inr x ↦ x
  ]

  drain :
      (n : ℕ) (w : World)
      → 0 < max_concurrent
      → Reachable max_concurrent w
      → length w.semaphore.waiters ≡ n
      → (v : World) × Releases w n v
  unfolding release
  drain zero w m r e = (w, finished w)
  drain (suc n) w m r e = elim (List-cases w.semaphore.waiters) [
    | inl none_wait ↦ absurd (omega (arith, e, ap length none_wait))
    | inr (x, rest, some_wait) ↦
        let all_taken =
          full max_concurrent w x rest (Reachable-IsFair max_concurrent r) some_wait in
        let (call, others, runs) = someone_runs w (omega (arith, m, all_taken)) in
        let (v, s) =
          drain n (after_release others w) m (step r (releases w [] call others runs))
            (omega (arith, e, one_less w others)) in
        (v, next [] call others runs s)
  ]

  -- With a limit above 0 the semaphore never deadlocks: from every reachable state there are as many
  -- releases as there are waiting calls, and after them no call waits and all have been let in.
  pub Reachable-CanDrain :
      (w : World)
      → 0 < max_concurrent
      → Reachable max_concurrent w
      → CanDrain w (length w.semaphore.waiters)
  unfolding CanDrain
  Reachable-CanDrain w m r =
      let (v, s) = drain (length w.semaphore.waiters) w m r refl in
      let (none_wait, all_in) = Releases-admit r s (omega arith) in (v, s, none_wait, all_in)
