-- ===== src/Retry/Attempts.antt =====
-- What the attempts of one `generate` call are, and how it ends.
use dogpile.Base.{
  ℕ, zero, suc, ◌+◌, ◌≤◌, ◌<◌, true, false, ◌||◌, Option, none, some, List, [], ◌∷◌, Js, ◌≡◌, refl,
  ◌⊎◌, inl, inr, length, leb, leb→le, ◌==◌, ==_iff, subst, Bool-cases, arith,
}
use dogpile.Base.Result.{Result, ok, err, Result-cases}
use dogpile.Data.Error.{Thrown}
use dogpile.Retry.{
  Settings, Surroundings, Action, called, on_retry, Run, choose_delay, is_abort_error, abort_reason,
  attempts, generate, ends, first, after_call, after_failure, after_sleep,
}

module _ {F : Type 0} where
  -- The attempts in which the provider was called.
  abbrev pub calls_of : List (Action F) → List ℕ
  calls_of [] = []
  calls_of (called attempt ∷ rest) = attempt ∷ calls_of rest
  calls_of (on_retry attempt max delay e ∷ rest) = calls_of rest

ltb_of : (n m : ℕ) → leb m n ≡ false → n < m
ltb_of n m e = ground arith

module _ {F R : Type 0} ⦃js : Js F⦄ where
  -- An attempt whose error is handed to `sleep`, with what the sleep answers.
  pub record IsRetried (settings : Settings F) (s : Surroundings F R) (attempt : ℕ)
      (answer : Result (Thrown F) Unit) : Type 0 where
    error : Thrown F
    not_cancelled : s.aborted_before attempt ≡ false
    failed : s.generate attempt ≡ err error
    no_abort : (is_abort_error error || s.aborted_after attempt) ≡ false
    retryable : settings.retry_on error ≡ true
    early : attempt < settings.max_attempts
    slept : s.sleep attempt (choose_delay settings (s.random attempt) attempt error) ≡ answer

  -- The attempt that ends the call, what the call then returns or throws, and how often the provider
  -- is called in that attempt.
  pub data IsLast (settings : Settings F) (s : Surroundings F R) (attempt : ℕ)
      : Result (Thrown F) R → ℕ → Type 0 where
    cancelled :
        s.aborted_before attempt ≡ true
        → IsLast settings s attempt (err (abort_reason s.signal_reason)) 0
    succeeded :
        (response : R)
        → s.aborted_before attempt ≡ false
        → s.generate attempt ≡ ok response
        → IsLast settings s attempt (ok response) 1
    aborts :
        (e : Thrown F)
        → s.aborted_before attempt ≡ false
        → s.generate attempt ≡ err e
        → (is_abort_error e || s.aborted_after attempt) ≡ true
        → IsLast settings s attempt (err e) 1
    gives_up :
        (e : Thrown F)
        → s.aborted_before attempt ≡ false
        → s.generate attempt ≡ err e
        → (attempt ≡ settings.max_attempts) ⊎ (settings.retry_on e ≡ false)
        → IsLast settings s attempt (err e) 1
    sleep_rejects :
        (x : Thrown F) → IsRetried settings s attempt (err x) → IsLast settings s attempt (err x) 1

  pub record Outcome (settings : Settings F) (s : Surroundings F R) (from : ℕ) (run : Run F R)
      : Type 0 where
    last : ℕ
    calls_in_last : ℕ
    bounded : (from ≤ last) × (last ≤ settings.max_attempts)
    retried : (j : ℕ) → from ≤ j → j < last → IsRetried settings s j (ok tt)
    counted : length (calls_of run.actions) + from ≡ last + calls_in_last
    ending : IsLast settings s last run.outcome calls_in_last

  -- An attempt that ends the call at once.
  ends_here :
      (settings : Settings F) (s : Surroundings F R) (n calls : ℕ) (run : Run F R)
      → n ≤ settings.max_attempts
      → length (calls_of run.actions) ≡ calls
      → IsLast settings s n run.outcome calls
      → Outcome settings s n run
  ends_here settings s n calls run h c e = record {
    last = n;
    calls_in_last = calls;
    bounded = (omega arith, h);
    retried = λ j p q. absurd (omega (arith, p, q));
    counted = omega (arith, c);
    ending = e;
  }

  also_here :
      (settings : Settings F) (s : Surroundings F R) (n last : ℕ)
      → IsRetried settings s n (ok tt)
      → ((j : ℕ) → suc n ≤ j → j < last → IsRetried settings s j (ok tt))
      → (j : ℕ) → n ≤ j
      → j < last
      → IsRetried settings s j (ok tt)
  also_here settings s n last r later j p q = elim (Bool-cases (n == j)) [
    | inl e ↦ subst (λ k. IsRetried settings s k (ok tt)) ((==_iff n j).0 e) r
    | inr e ↦ later j (ground arith) q
  ]

  goes_on :
      (settings : Settings F) (s : Surroundings F R) (n : ℕ) (delay : F) (e : Thrown F)
      (rest : Run F R)
      → IsRetried settings s n (ok tt)
      → Outcome settings s (suc n) rest
      → Outcome settings s n
          (first (called n) (first (on_retry n settings.max_attempts delay e) rest))
  unfolding first
  goes_on settings s n delay e rest r o = record {
    last = o.last;
    calls_in_last = o.calls_in_last;
    bounded = (omega (arith, o.bounded), o.bounded.1);
    retried = also_here settings s n o.last r o.retried;
    counted = omega (arith, o.counted);
    ending = o.ending;
  }

  -- The end of the `catch`, where the error is retried.
  retrying :
      (settings : Settings F) (s : Surroundings F R) (n : ℕ) (e : Thrown F) (rest : Run F R)
      → n ≤ settings.max_attempts
      → s.aborted_before n ≡ false
      → s.generate n ≡ err e
      → (is_abort_error e || s.aborted_after n) ≡ false
      → settings.retry_on e ≡ true
      → n < settings.max_attempts
      → (n < settings.max_attempts → Outcome settings s (suc n) rest)
      → let delay = choose_delay settings (s.random n) n e in
        Outcome settings s n (
          first
            (called n)
            (first (on_retry n settings.max_attempts delay e) (after_sleep (s.sleep n delay) rest)))
  unfolding after_sleep first ends
  retrying settings s n e rest h live failed a t early later =
      let delay = choose_delay settings (s.random n) n e in
      let asked : (answer : Result (Thrown F) Unit)
          → s.sleep n delay ≡ answer
          → IsRetried settings s n answer =
        λ answer slept. record {
          error = e;
          not_cancelled = live;
          failed = failed;
          no_abort = a;
          retryable = t;
          early = early;
          slept = slept;
        } in
      elim (Result-cases (s.sleep n delay)) [
        | inl (u, p) ↦ rw p (goes_on settings s n delay e rest (asked (ok u) p) (later early))
        | inr (x, p) ↦ rw p (ends_here settings s n 1 _ h refl (sleep_rejects x (asked (err x) p)))
      ]

  -- The `catch`, where the remaining attempts go as described.
  failing :
      (settings : Settings F) (s : Surroundings F R) (n : ℕ) (e : Thrown F) (rest : Run F R)
      → n ≤ settings.max_attempts
      → s.aborted_before n ≡ false
      → s.generate n ≡ err e
      → (n < settings.max_attempts → Outcome settings s (suc n) rest)
      → Outcome settings s n (first (called n) (after_failure settings s n e rest))
  unfolding after_failure first ends after_sleep
  failing settings s n e rest h live failed later =
      elim (Bool-cases (is_abort_error e || s.aborted_after n)) [
        | inl a ↦ rw a (ends_here settings s n 1 _ h refl (aborts e live failed a))
        | inr a ↦ elim (Bool-cases (leb settings.max_attempts n)) [
          | inl m ↦
              let is_last = inl (omega (arith, h, leb→le settings.max_attempts n m)) in
              rw (a, m) (ends_here settings s n 1 _ h refl (gives_up e live failed is_last))
          | inr m ↦ elim (Bool-cases (settings.retry_on e)) [
            | inl t ↦
                rw (a, m, t)
                  (retrying settings s n e rest h live failed a t (ltb_of n settings.max_attempts m)
                    later)
            | inr t ↦
                rw (a, m, t) (ends_here settings s n 1 _ h refl (gives_up e live failed (inr t)))
          ]
        ]
      ]

  rounds :
      (settings : Settings F) (s : Surroundings F R) (left n : ℕ) (e : Option (Thrown F))
      → n ≤ settings.max_attempts
      → left + n ≡ suc settings.max_attempts
      → Outcome settings s n (attempts left settings s n e)
  unfolding attempts after_call first ends
  rounds settings s zero n e h k = absurd (omega (arith, h, k))
  rounds settings s (suc left) n e h k = elim (Bool-cases (s.aborted_before n)) [
    | inl c ↦ rw c (ends_here settings s n 0 _ h refl (cancelled c))
    | inr live ↦ elim (Result-cases (s.generate n)) [
      | inl (r, p) ↦ rw (live, p) (ends_here settings s n 1 _ h refl (succeeded r live p))
      | inr (x, p) ↦
          rw (live, p)
            (failing settings s n x (attempts left settings s (suc n) (some x)) h live p
              (λ early. rounds settings s left (suc n) (some x) early (omega (arith, k))))
    ]
  ]

  -- With at least one attempt allowed, a `generate` call of the wrapper ends at some attempt within
  -- the limit: all attempts before it failed with an error that is retryable and no abort and slept to
  -- the end; it returns the provider's response, throws the provider's error if that is an abort, not
  -- retryable or the limit is reached, throws the signal's reason without a call if the signal is
  -- aborted already, or throws what the sleep throws. The provider is called once per attempt, so at
  -- most as often as the limit says, and the error about exhausted attempts is never thrown.
  pub generate-Outcome :
      (settings : Settings F) (s : Surroundings F R)
      → 1 ≤ settings.max_attempts
      → Outcome settings s 1 (generate settings s)
  unfolding generate
  generate-Outcome settings s h = rounds settings s settings.max_attempts 1 none h (omega arith)
