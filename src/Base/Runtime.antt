-- ===== src/Base/Runtime.antt =====
-- What the program takes from the JavaScript runtime: its numbers, which are floats, and the
-- Unicode tables behind `toLowerCase`. Whole non-negative numbers (counts, tokens, milliseconds)
-- are native numbers in the model; all else that the source calls `number` is an `F`.
use Prim.Native.Nat.{ℕ, ◌<◌}
use mathlib.Core.Logic.{◌⊎◌}
use Prim.Native.String.{String}
use mathlib.Core.Path.{◌≡◌}
use mathlib.Core.Option.{Option, some}
use mathlib.Core.Bool.{Bool, true, false, ◌&&◌}

pub record Js (F : Type 0) : Type 0 where
  pub of_nat : ℕ → F
  pub lt : F → F → Bool
  pub le : F → F → Bool
  pub add : F → F → F
  pub sub : F → F → F
  pub mul : F → F → F
  pub div : F → F → F
  pub min_of : F → F → F
  pub max_of : F → F → F
  pub floor : F → F
  pub abs : F → F
  pub is_finite : F → Bool
  -- The number, where `Number.isInteger(x) && x >= 0`.
  pub whole : F → Option ℕ
  -- `Object.is(x, -0)`.
  pub is_negative_zero : F → Bool
  pub to_lower : String → String
  -- `a.localeCompare(b) <= 0`.
  pub locale_le : String → String → Bool
  -- The order of `sort()` on texts, by their code units.
  pub text_le : String → String → Bool
  pub show_nat : ℕ → String
  -- `String(x)` of a number.
  pub show : F → String
  -- `x.toFixed(1)`.
  pub to_fixed : F → String

-- The order of the floats as IEEE 754 and ECMAScript document it: a number is NaN exactly when it is
-- not `<=` itself, and a comparison with NaN is false.
pub record IsOrdered {F : Type 0} (js : Js F) : Type 0 where
  pub le_trans : (x y z : F) → js.le x y ≡ true → js.le y z ≡ true → js.le x z ≡ true
  pub le_right : (x y : F) → js.le x y ≡ true → js.le y y ≡ true
  pub min_of-left : (x y : F) → js.le x x ≡ true → js.le y y ≡ true → js.le (js.min_of x y) x ≡ true
  pub min_of-above :
      (z x y : F) → js.le z x ≡ true → js.le z y ≡ true → js.le z (js.min_of x y) ≡ true

-- `Math.min` is NaN where an argument is, and `<` is false on NaN: on all floats, to be below the
-- minimum is to be below both.
pub record HasMin {F : Type 0} (js : Js F) : Type 0 where
  pub lt-min_of : (x y z : F) → js.lt x (js.min_of y z) ≡ js.lt x y && js.lt x z

-- Of two numbers that are not NaN, `Math.min` is one, and is at most each; and what is at most a number
-- below a bound is below it.
pub record HasRealMin {F : Type 0} (js : Js F) : Type 0 where
  pub min_of-either :
      (x y : F) → js.le x x ≡ true → js.le y y ≡ true → (js.min_of x y ≡ x) ⊎ (js.min_of x y ≡ y)
  pub min_of-first :
      (x y : F) → js.le x x ≡ true → js.le y y ≡ true → js.le (js.min_of x y) x ≡ true
  pub min_of-second :
      (x y : F) → js.le x x ≡ true → js.le y y ≡ true → js.le (js.min_of x y) y ≡ true
  pub le_lt_trans : (x y z : F) → js.le x y ≡ true → js.lt y z ≡ true → js.lt x z ≡ true

-- `Math.floor` makes no number larger, and a factor in `[0, 1)` makes no finite number that is not
-- negative larger; `x` is finite as it is at most `m`.
pub record HasScaling {F : Type 0} (js : Js F) : Type 0 where
  pub floor_le : (x y : F) → js.le x y ≡ true → js.le (js.floor x) y ≡ true
  pub mul_le :
      (x m r : F)
      → js.le (js.of_nat 0) x ≡ true
      → js.le x m ≡ true
      → js.is_finite m ≡ true
      → js.le (js.of_nat 0) r ≡ true
      → js.lt r (js.of_nat 1) ≡ true
      → js.le (js.mul x r) x ≡ true

-- The order of `sort()` is total, and zero is a finite number with no sign.
pub record HasTextOrder {F : Type 0} (js : Js F) : Type 0 where
  pub text_le_total : (a b : String) → js.text_le a b ≡ false → js.text_le b a ≡ true
  pub zero_is_finite : js.is_finite (js.of_nat 0) ≡ true
  pub zero_is_plain : js.is_negative_zero (js.of_nat 0) ≡ false

-- The natural numbers below 2^53 are numbers, each itself.
abbrev pub safe_limit : ℕ
safe_limit = 9007199254740992

pub record HasWhole {F : Type 0} (js : Js F) : Type 0 where
  pub whole-of_nat : (n : ℕ) → n < safe_limit → js.whole (js.of_nat n) ≡ some n
