-- ===== src/Decisions/Allowed.antt =====
-- What a decision that the parser of src/runtime/decisions.ts returns satisfies, and the errors that
-- it throws.
use dogpile.Base.{
  ℕ, suc, ◌≤◌, false, Option, none, some, String, All, length, str_eq, ◌≡◌, Bool-cases, inl, inr,
  trim,
}
use dogpile.Base.Result.{Result, ok, err, ◌>>=◌}
use dogpile.Data.Json.{Fields, str, obj, field}
use dogpile.Data.Agent.{
  BudgetCaps, ParticipateDecision, DelegateDecision, AgentDecision, participate, delegate,
  delegates,
}
use dogpile.Data.Error.{DogpileError, invalid_configuration}
use dogpile.Decisions.Reading.{ParseContext, filled, match_line, or_throw, and_then}

-- An error of the validation: an invalid configuration that is not retried, marked in its detail.
unfoldable pub IsInvalid : {F : Type 0} → DogpileError F → Type 0
IsInvalid {F} e =
    (e.code ≡ invalid_configuration)
    × (e.retryable ≡ some false)
    × ((rest : Fields F) × (e.detail ≡ some (obj (field "kind" (str "delegate-validation") rest))))

-- A call that returns a value with `P`, or else throws an error of the validation.
unfoldable pub Returns : {F A : Type 0} → (A → Type 0) → Result (DogpileError F) A → Type 0
Returns P (ok a) = P a
Returns P (err e) = IsInvalid e

pub in_turn :
    {F A B : Type 0} (P : A → Type 0) (Q : B → Type 0) (m : Result (DogpileError F) A)
    (f : A → Result (DogpileError F) B)
    → Returns P m
    → ((a : A) → P a → Returns Q (f a))
    → Returns Q (m >>= f)
unfolding Returns
in_turn P Q (ok a) f p q = q a p
in_turn P Q (err e) f p q = p

-- A text that is not empty.
unfoldable pub IsFilled : String → Type 0
IsFilled s = str_eq s "" ≡ false

unfoldable pub Optionally : {A : Type 0} → (A → Type 0) → Option A → Type 0
Optionally P none = Unit
Optionally P (some a) = P a

unfoldable pub IsWithinDepth : Option ℕ → Option ℕ → Type 0
IsWithinDepth (some current) (some limit) = suc current ≤ limit
IsWithinDepth current limit = Unit

-- The model of a delegate is the provider of its parent.
unfoldable pub IsModelFor : Option String → String → Type 0
IsModelFor parent model = IsFilled model × Optionally (λ p. model ≡ p) parent

unfoldable pub SetsCountsOnly : {F : Type 0} → BudgetCaps F → Type 0
SetsCountsOnly caps = (caps.max_usd ≡ none) × (caps.quality_weight ≡ none)

-- A delegate that may be started in the context.
unfoldable pub IsAllowed : {F : Type 0} → ParseContext → DelegateDecision F → Type 0
IsAllowed ctx d =
    IsFilled d.intent
    × Optionally (IsModelFor ctx.parent_provider_id) d.model
    × Optionally SetsCountsOnly d.budget
    × Optionally (λ n. 1 ≤ n) d.max_concurrent_children
    × IsWithinDepth ctx.current_depth ctx.max_depth

-- A participation with all of its texts.
unfoldable pub IsReady : ParticipateDecision → Type 0
IsReady p = IsFilled p.selected_role × IsFilled p.rationale × IsFilled p.contribution

-- A decision that the run may act on.
unfoldable pub MayFollow : {F : Type 0} → ParseContext → AgentDecision F → Type 0
MayFollow ctx (participate p) = IsReady p
MayFollow ctx (delegate d) = IsAllowed ctx d
MayFollow ctx (delegates ds) = (1 ≤ length ds) × All (IsAllowed ctx) ds

pub filled-Optionally : (o : Option String) → Optionally IsFilled (filled o)
unfolding filled Optionally IsFilled
filled-Optionally none = tt
filled-Optionally (some s) = elim (Bool-cases (str_eq s "")) [ inl e ↦ rw e tt | inr e ↦ rw e e ]

pub and_then-Optionally :
    {A B : Type 0} (P : A → Type 0) (Q : B → Type 0) (o : Option A) (f : A → Option B)
    → Optionally P o
    → ((a : A) → P a → Optionally Q (f a))
    → Optionally Q (and_then o f)
unfolding Optionally
and_then-Optionally P Q none f p q = tt
and_then-Optionally P Q (some a) f p q = q a p

pub match_line-IsFilled : (o : Option String) → Optionally IsFilled (match_line o)
unfolding match_line Optionally
match_line-IsFilled none = tt
match_line-IsFilled (some s) = filled-Optionally (some (trim s))

pub or_throw-Returns :
    {F A : Type 0} (P : A → Type 0) (e : DogpileError F) (o : Option A)
    → IsInvalid e
    → Optionally P o
    → Returns P (or_throw e o)
unfolding Returns Optionally
or_throw-Returns P e none invalid p = invalid
or_throw-Returns P e (some a) invalid p = p

pub always : {A : Type 0} (o : Option A) → Optionally (λ a. Unit {0}) o
unfolding Optionally
always none = tt
always (some a) = tt
