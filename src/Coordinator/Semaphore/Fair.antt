-- ===== src/Coordinator/Semaphore/Fair.antt =====
-- The semaphore with its clients: who asked, who was let in and who is still running.
use dogpile.Base.{
  ℕ, suc, ◌≤◌, ◌<◌, List, [], ◌∷◌, ◌++◌, Option, none, some, ◌≡◌, refl, ◌∙◌, sym, ap, ◌⊎◌, inl, inr,
  List-cases, length, length-append, arith, false, ltb, ltb→lt, Bool-cases,
}
use mathlib.Core.List.{append_assoc, append-nil, nil≢cons}
use dogpile.Coordinator.Semaphore.{Semaphore, create_semaphore, acquire, release}

pub record World : Type 0 where
  pub semaphore : Semaphore
  -- The calls that were let in and have not released.
  pub running : List ℕ
  -- All calls of `acquire` so far, and those that were let in, in order.
  pub requested : List ℕ
  pub granted : List ℕ

abbrev pub start : World
unfolding create_semaphore
start = record { semaphore = create_semaphore; running = []; requested = []; granted = [] }

abbrev pub admit : Option ℕ → List ℕ → List ℕ
admit none calls = calls
admit (some call) calls = calls ++ call ∷ []

abbrev pub after_acquire : ℕ → ℕ → World → World
after_acquire max_concurrent call w =
    let r = acquire max_concurrent call w.semaphore in
    record {
      semaphore = r.0;
      running = admit r.1 w.running;
      requested = w.requested ++ call ∷ [];
      granted = admit r.1 w.granted;
    }

-- After a release by one that was running, where `others` is who else was.
abbrev pub after_release : List ℕ → World → World
after_release others w =
    let r = release w.semaphore in
    record {
      semaphore = r.0;
      running = admit r.1 others;
      requested = w.requested;
      granted = admit r.1 w.granted;
    }

pub data Step (max_concurrent : ℕ) : World → World → Type 0 where
  acquires : (w : World) (call : ℕ) → Step max_concurrent w (after_acquire max_concurrent call w)
  releases :
      (w : World) (before : List ℕ) (call : ℕ) (after : List ℕ)
      → w.running ≡ before ++ call ∷ after
      → Step max_concurrent w (after_release (before ++ after) w)

pub data Reachable (max_concurrent : ℕ) : World → Type 0 where
  started : Reachable max_concurrent start
  step :
      {v w : World}
      → Reachable max_concurrent v
      → Step max_concurrent v w
      → Reachable max_concurrent w

pub record IsFair (max_concurrent : ℕ) (w : World) : Type 0 where
  pub counted : w.semaphore.in_flight ≡ length w.running
  pub bounded : length w.running ≤ max_concurrent
  pub busy : (w.semaphore.waiters ≡ []) ⊎ (length w.running ≡ max_concurrent)
  pub in_order : w.granted ++ w.semaphore.waiters ≡ w.requested

length-admit : (call : ℕ) (calls : List ℕ) → length (calls ++ call ∷ []) ≡ suc (length calls)
length-admit call calls = omega (arith, length-append calls (call ∷ []))

-- Who else was running is one fewer.
length-others :
    (running before : List ℕ) (call : ℕ) (after : List ℕ)
    → running ≡ before ++ call ∷ after
    → length running ≡ suc (length (before ++ after))
length-others running before call after e =
    ap length e ∙ omega (arith, length-append before (call ∷ after), length-append before after)

ltb_false→le : (m n : ℕ) → ltb m n ≡ false → n ≤ m
ltb_false→le m n e = ground arith

module _ (max_concurrent : ℕ) where
  -- Nobody waits while there is room.
  no_waiters :
      (w : World)
      → IsFair max_concurrent w
      → length w.running < max_concurrent
      → w.semaphore.waiters ≡ []
  no_waiters w f h = elim f.busy [ inl e ↦ e | inr e ↦ absurd (omega (arith, e, h)) ]

  -- Somebody waits only while all places are taken.
  pub full :
      (w : World) (x : ℕ) (rest : List ℕ)
      → IsFair max_concurrent w
      → w.semaphore.waiters ≡ x ∷ rest
      → length w.running ≡ max_concurrent
  full w x rest f e = elim f.busy [ inl n ↦ absurd (nil≢cons (sym n ∙ e)) | inr b ↦ b ]

  room_left :
      (w : World)
      → IsFair max_concurrent w
      → w.semaphore.in_flight < max_concurrent
      → length w.running < max_concurrent
  room_left w f h = omega (arith, f.counted, h)

  acquire-IsFair :
      (w : World) (call : ℕ)
      → IsFair max_concurrent w
      → IsFair max_concurrent (after_acquire max_concurrent call w)
  unfolding acquire
  acquire-IsFair w call f = elim (Bool-cases (ltb w.semaphore.in_flight max_concurrent)) [
    | inl e ↦
        let room = room_left w f (ltb→lt w.semaphore.in_flight max_concurrent e) in
        let none_wait = no_waiters w f room in
        rw e (record {
          counted = omega (arith, f.counted, length-admit call w.running);
          bounded = omega (arith, room, length-admit call w.running);
          busy = inl none_wait;
          in_order =
              ap (λ x. (w.granted ++ call ∷ []) ++ x) none_wait
              ∙ append-nil (w.granted ++ call ∷ [])
              ∙ ap (λ x. x ++ call ∷ [])
                  (sym (append-nil w.granted)
                    ∙ ap (λ x. w.granted ++ x) (sym none_wait)
                    ∙ f.in_order);
        })
    | inr e ↦ rw e (record {
      counted = f.counted;
      bounded = f.bounded;
      busy = inr (
          omega (arith, f.bounded, f.counted, ltb_false→le w.semaphore.in_flight max_concurrent e));
      in_order =
          sym (append_assoc w.granted w.semaphore.waiters (call ∷ []))
          ∙ ap (λ x. x ++ call ∷ []) f.in_order;
    })
  ]

  release-IsFair :
      (w : World) (before : List ℕ) (call : ℕ) (after : List ℕ)
      → w.running ≡ before ++ call ∷ after
      → IsFair max_concurrent w
      → IsFair max_concurrent (after_release (before ++ after) w)
  unfolding release
  release-IsFair w before call after e f = elim (List-cases w.semaphore.waiters) [
    | inl n ↦ rw n (record {
      counted = omega (arith, f.counted, length-others w.running before call after e);
      bounded = omega (arith, f.bounded, length-others w.running before call after e);
      busy = inl refl;
      in_order = ap (λ x. w.granted ++ x) (sym n) ∙ f.in_order;
    })
    | inr (x, rest, n) ↦
        let others = before ++ after in
        rw n (record {
          counted = omega (
            arith,
            f.counted,
            length-admit x others,
            length-others w.running before call after e,
          );
          bounded = omega (
            arith,
            f.bounded,
            length-admit x others,
            length-others w.running before call after e,
          );
          busy = inr (
              omega (
                arith,
                full w x rest f n,
                length-admit x others,
                length-others w.running before call after e,
              ));
          in_order =
              append_assoc w.granted (x ∷ []) rest ∙ ap (λ y. w.granted ++ y) (sym n) ∙ f.in_order;
        })
  ]

  -- In every state that calls of `acquire`, and of `release` by one that holds a place, lead to: the
  -- counter is the number of holders and at most the limit; a call waits only while all places are
  -- taken; and the calls let in so far, followed by those that wait, are all the calls in the order
  -- in which they came, so that none overtakes another and none is lost.
  pub Reachable-IsFair : {w : World} → Reachable max_concurrent w → IsFair max_concurrent w
  unfolding create_semaphore
  Reachable-IsFair started = record {
    counted = refl;
    bounded = omega arith;
    busy = inl refl;
    in_order = refl;
  }
  Reachable-IsFair (step r (acquires w call)) = acquire-IsFair w call (Reachable-IsFair r)
  Reachable-IsFair (step r (releases w before call after e)) =
      release-IsFair w before call after e (Reachable-IsFair r)
