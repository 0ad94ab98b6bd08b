-- ===== src/Base/Sorting.antt =====
-- `Array.prototype.sort` with a comparator: stable, by insertion. Where the comparator is
-- consistent, the outcome depends on the order of the input at most among values that compare as equal.
pub mod Alike
pub mod Orders
use Prim.Native.Nat.compare
use Prim.Native.Nat.{ℕ, zero, suc, Ordering, compare}
use native.Mathlib.Omega.{arith}
use Prim.Native.Nat.Ordering.{lt, eq, gt}
use Prim.Native.String.{then as or_compare}
use mathlib.Core.Path.{◌≡◌, refl, sym, ap, ap₂, subst, ◌∙◌}
use mathlib.Core.List.{List, [], ◌∷◌, Permᴰ}

unfoldable pub opposite : Ordering → Ordering
opposite lt = gt
opposite eq = eq
opposite gt = lt

module _ {A : Type 0} where
  -- A consistent comparator, as ECMAScript calls it: values that compare as equal compare alike.
  pub record IsOrdering (c : A → A → Ordering) : Type 0 where
    pub flips : (x y : A) → c y x ≡ opposite (c x y)
    pub less_trans : (x y z : A) → c x y ≡ lt → c y z ≡ lt → c x z ≡ lt
    pub level : (x y z : A) → c x y ≡ eq → c x z ≡ c y z

  -- `x` comes before the list where it is not greater than its head.
  unfoldable pub place : Ordering → A → A → List A → List A → List A
  place gt x y ys rest = y ∷ rest
  place lt x y ys rest = x ∷ y ∷ ys
  place eq x y ys rest = x ∷ y ∷ ys

  unfoldable pub insert_with : (A → A → Ordering) → A → List A → List A
  unfolding place
  insert_with c x [] = x ∷ []
  insert_with c x (y ∷ ys) = place (c x y) x y ys (insert_with c x ys)

  unfoldable pub sort_with : (A → A → Ordering) → List A → List A
  unfolding insert_with
  sort_with c [] = []
  sort_with c (x ∷ xs) = insert_with c x (sort_with c xs)

  -- Two lists of one length whose values are related place by place.
  unfoldable pub Matched : (A → A → Type 0) → List A → List A → Type 0
  Matched R [] [] = Unit
  Matched R (x ∷ xs) (y ∷ ys) = R x y × Matched R xs ys
  Matched R xs ys = ⊥

  pub Matched-weaken :
      (R S : A → A → Type 0) (xs ys : List A)
      → ((x y : A) → R x y → S x y)
      → Matched R xs ys
      → Matched S xs ys
  unfolding Matched
  Matched-weaken R S [] [] f m = tt
  Matched-weaken R S (x ∷ xs) (y ∷ ys) f (r, m) = (f x y r, Matched-weaken R S xs ys f m)
  Matched-weaken R S [] (y ∷ ys) f m = absurd m
  Matched-weaken R S (x ∷ xs) [] f m = absurd m
