-- ===== src/Sequential/Steps.antt =====
-- What is kept along a sequential run (src/runtime/sequential.ts): a predicate of what a call returns, and
-- the stop tests between the turns.
use dogpile.Base.{Bool, true, false, Option, none, some, Js, ◌≡◌, subst}
use dogpile.Base.Result.{Result, ok, err, ◌>>=◌}
use dogpile.Data.Condition.{TerminationCondition, TerminationStopRecord}
use dogpile.Data.Error.{Thrown}
use dogpile.Sequential.{SequentialRunOptions, SequentialState, Point}
use dogpile.Sequential.Stop.{record_stop, after_test, test_stop, stop_if_needed}
use dogpile.Sequential.Run.{unless_stopped}

-- What a call returns, where it does, satisfies `P`.
unfoldable pub Ends : {E A : Type 0} → (A → Type 0) → Result E A → Type 0
Ends P (ok a) = P a
Ends P (err e) = Unit

pub proceed :
    {E A B : Type 0} (P : A → Type 0) (Q : B → Type 0) (m : Result E A) (f : A → Result E B)
    → Ends P m
    → ((a : A) → P a → Ends Q (f a))
    → Ends Q (m >>= f)
unfolding Ends
proceed P Q (ok a) f p q = q a p
proceed P Q (err e) f p q = tt

pub weaken :
    {E A : Type 0} (P Q : A → Type 0) (m : Result E A) → ((a : A) → P a → Q a) → Ends P m → Ends Q m
unfolding Ends
weaken P Q (ok a) f p = f a p
weaken P Q (err e) f p = tt

pub returned_value :
    {E A : Type 0} (P : A → Type 0) (m : Result E A) (a : A) → Ends P m → m ≡ ok a → P a
unfolding Ends
returned_value P m a p e = subst (Ends P) e p

pub anything : {E A : Type 0} (m : Result E A) → Ends (λ a. Unit {0}) m
unfolding Ends
anything (ok a) = tt
anything (err e) = tt

module _ {F : Type 0} ⦃js : Js F⦄ where
  -- A stop, with its event, keeps the predicate.
  unfoldable pub Keeps : (SequentialState F → Type 0) → SequentialRunOptions F → Type 0
  Keeps P o =
      (p : Point) (r : TerminationStopRecord F) (st : SequentialState F)
      → P st
      → P (record_stop o p r st)

  after_test-Ends :
      {E : Type 0} (P : SequentialState F → Type 0) (o : SequentialRunOptions F) (p : Point)
      (st : SequentialState F) (r : Result E (Option (TerminationStopRecord F)))
      → Keeps P o
      → P st
      → Ends (λ q. P q.0) (after_test o p st r)
  unfolding after_test Ends Keeps
  after_test-Ends P o p st (ok none) keeps h = h
  after_test-Ends P o p st (ok (some r)) keeps h = keeps p r st h
  after_test-Ends P o p st (err e) keeps h = tt

  test_stop-Ends :
      (P : SequentialState F → Type 0) (o : SequentialRunOptions F) (p : Point)
      (st : SequentialState F) (stopped : Bool) (terminate : Option (TerminationCondition F))
      → Keeps P o
      → P st
      → Ends (λ q. P q.0) (test_stop o p st stopped terminate)
  unfolding test_stop Ends
  test_stop-Ends P o p st false (some terminate) keeps h = after_test-Ends P o p st _ keeps h
  test_stop-Ends P o p st false none keeps h = h
  test_stop-Ends P o p st true terminate keeps h = h

  go_on :
      (P Q : SequentialState F → Type 0)
      (next : SequentialState F → Result (Thrown F) (SequentialState F))
      (q : SequentialState F × Bool)
      → P q.0
      → ((st : SequentialState F) → P st → Q st)
      → ((st : SequentialState F) → P st → Ends Q (next st))
      → Ends Q (unless_stopped next q)
  unfolding unless_stopped Ends
  go_on P Q next (st, true) h stop f = stop st h
  go_on P Q next (st, false) h stop f = f st h

  -- A test, and what follows where the run does not stop.
  pub unless_stopped-Ends :
      (P Q : SequentialState F → Type 0) (o : SequentialRunOptions F) (p : Point)
      (st : SequentialState F) (next : SequentialState F → Result (Thrown F) (SequentialState F))
      → Keeps P o
      → P st
      → ((st : SequentialState F) → P st → Q st)
      → ((st : SequentialState F) → P st → Ends Q (next st))
      → Ends Q (stop_if_needed o p st >>= unless_stopped next)
  unfolding stop_if_needed
  unless_stopped-Ends P Q o p st next keeps h stop f =
      proceed (λ q. P q.0) Q (stop_if_needed o p st) (unless_stopped next)
        (proceed (λ u. Unit {0}) (λ q. P q.0) (o.check p) _ (anything (o.check p))
          (λ u v. test_stop-Ends P o p st st.stopped o.terminate keeps h))
        (λ q k. go_on P Q next q k stop f)
