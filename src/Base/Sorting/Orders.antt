-- ===== src/Base/Sorting/Orders.antt =====
-- Consistent comparators: of numbers, of a part of a value, and of two comparators in turn.
use Prim.Native.Nat.compare
use Prim.Native.Nat.{ℕ, zero, suc, Ordering, compare}
use native.Mathlib.Omega.{arith}
use Prim.Native.Nat.Ordering.{lt, eq, gt}
use Prim.Native.String.{then as or_compare}
use mathlib.Core.Path.{◌≡◌, refl, sym, ap, ap₂, ◌∙◌}
use dogpile.Base.Sorting.{opposite, IsOrdering}
use dogpile.Base.Sorting.Alike.{level_right}

module _ {A : Type 0} (c : A → A → Ordering) (lin : IsOrdering c) where
  -- The first of two comparisons decides, or the second where the first is level.
  pub or_compare-less :
      (a a' a'' : A) (p q r o o' : Ordering)
      → c a a' ≡ o
      → c a' a'' ≡ o'
      → (p ≡ lt → q ≡ lt → r ≡ lt)
      → or_compare o p ≡ lt
      → or_compare o' q ≡ lt
      → or_compare (c a a'') r ≡ lt
  or_compare-less a a' a'' p q r lt lt e f second h h' =
      ap (λ o. or_compare o r) (lin.less_trans a a' a'' e f)
  or_compare-less a a' a'' p q r lt eq e f second h h' =
      ap (λ o. or_compare o r) (sym (level_right c lin a' a'' a f) ∙ e)
  or_compare-less a a' a'' p q r eq lt e f second h h' =
      ap (λ o. or_compare o r) (lin.level a a' a'' e ∙ f)
  or_compare-less a a' a'' p q r eq eq e f second h h' =
      ap (λ o. or_compare o r) (lin.level a a' a'' e ∙ f) ∙ second h h'
  or_compare-less a a' a'' p q r gt o' e f second h h' = ground arith
  or_compare-less a a' a'' p q r o gt e f second h h' = ground arith

pub opposite-or_compare :
    (o p : Ordering) → or_compare (opposite o) (opposite p) ≡ opposite (or_compare o p)
unfolding opposite
opposite-or_compare lt p = refl
opposite-or_compare eq p = refl
opposite-or_compare gt p = refl

pub or_compare-level : (o p : Ordering) → or_compare o p ≡ eq → (o ≡ eq) × (p ≡ eq)
or_compare-level eq p h = (refl, h)
or_compare-level lt p h = ground arith
or_compare-level gt p h = ground arith

compare_flips : (x y : ℕ) → compare y x ≡ opposite (compare x y)
unfolding opposite
compare_flips zero zero = refl
compare_flips zero (suc y) = compare.suc-zero y ∙ ap opposite (sym (compare.zero-suc y))
compare_flips (suc x) zero = compare.zero-suc x ∙ ap opposite (sym (compare.suc-zero x))
compare_flips (suc x) (suc y) =
    compare.suc-suc y x ∙ compare_flips x y ∙ ap opposite (sym (compare.suc-suc x y))

equal_numbers : (x y : ℕ) → compare x y ≡ eq → x ≡ y
equal_numbers x y e = ground arith

pub compare-IsOrdering : IsOrdering compare
compare-IsOrdering = record {
  flips = compare_flips;
  less_trans = λ x y z e f. ground arith;
  level = λ x y z e. ap (λ w. compare w z) (equal_numbers x y e);
}

module _ {A : Type 0} where
  pub pullback-IsOrdering :
      {B : Type 0} (k : A → B) (c : B → B → Ordering)
      → IsOrdering c
      → IsOrdering (λ x y. c (k x) (k y))
  pullback-IsOrdering k c laws = record {
    flips = λ x y. laws.flips (k x) (k y);
    less_trans = λ x y z. laws.less_trans (k x) (k y) (k z);
    level = λ x y z. laws.level (k x) (k y) (k z);
  }

  -- First by one comparator, then by another.
  pub or_compare-IsOrdering :
      (c d : A → A → Ordering)
      → IsOrdering c
      → IsOrdering d
      → IsOrdering (λ x y. or_compare (c x y) (d x y))
  or_compare-IsOrdering c d laws laws' = record {
    flips = λ x y.
        ap₂ or_compare (laws.flips x y) (laws'.flips x y) ∙ opposite-or_compare (c x y) (d x y);
    less_trans = λ x y z. or_compare-less c laws x y z _ _ _ _ _ refl refl (laws'.less_trans x y z);
    level = λ x y z e.
        let (p, q) = or_compare-level (c x y) (d x y) e in
        ap₂ or_compare (laws.level x y z p) (laws'.level x y z q);
  }
