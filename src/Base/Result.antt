-- ===== src/Base/Result.antt =====
-- A call that may throw, as a value.
use mathlib.Core.Path.{◌≡◌, refl}
use mathlib.Core.Logic.{◌⊎◌, inl, inr}

pub data Result {ℓ} (E A : Type ℓ) : Type ℓ where
  ok : A → Result E A
  err : E → Result E A

infixl 5 ◌>>=◌ ◌>>◌
abbrev pub ◌>>=◌ : {E A B : Type 0} → Result E A → (A → Result E B) → Result E B
ok a >>= f = f a
err e >>= f = err e

abbrev pub ◌>>◌ : {E B : Type 0} → Result E (Unit {0}) → Result E B → Result E B
m >> k = m >>= λ _. k

pub Result-cases {ℓ} :
    {E A : Type ℓ} (r : Result E A) → ((a : A) × (r ≡ ok a)) ⊎ ((e : E) × (r ≡ err e))
Result-cases (ok a) = inl (a, refl)
Result-cases (err e) = inr (e, refl)

-- A call that returns went through the check before it.
pub after_check :
    {E B : Type 0} (m : Result E (Unit {0})) (k : Result E B) (b : B) → (m >> k) ≡ ok b → k ≡ ok b
after_check (ok u) k b e = e
after_check (err x) k b e = cc

pub ok_injective : {E A : Type 0} {a b : A} → ◌≡◌ {A = Result E A} (ok a) (ok b) → a ≡ b
ok_injective e = cc

pub checked :
    {E B : Type 0} (m : Result E (Unit {0})) (k : Result E B) (b : B) → (m >> k) ≡ ok b → m ≡ ok tt
checked (ok u) k b e = refl
checked (err x) k b e = cc
