-- ===== src/Decisions/Depth.antt =====
-- The limit on the depth of delegated runs (src/runtime/decisions.ts).
use Prim.Native.String.{◌++◌ as str_append}
use dogpile.Base.{ℕ, suc, false, none, some, Js, ltb, if◌then◌else◌}
use dogpile.Base.Result.{Result, ok, err}
use dogpile.Data.Json.{num, str, obj, end, field}
use dogpile.Data.Error.{DogpileError, invalid_configuration}

module _ {F : Type 0} ⦃js : Js F⦄ where
  unfoldable pub depth_overflow_error : ℕ → ℕ → DogpileError F
  depth_overflow_error current_depth max_depth = record {
    code = invalid_configuration;
    message = str_append "Depth overflow: cannot dispatch sub-run at depth " (
        str_append (js.show_nat (suc current_depth))
          (str_append " (maxDepth = " (str_append (js.show_nat max_depth) ").")));
    retryable = some false;
    provider_id = none;
    detail = some (
        obj (
          field "kind" (str "delegate-validation") (
            field "path" (str "decision.protocol") (
              field "reason" (str "depth-overflow") (
                field "currentDepth" (num (js.of_nat current_depth))
                  (field "maxDepth" (num (js.of_nat max_depth)) end))))));
  }

  unfoldable pub assert_depth_within_limit : ℕ → ℕ → Result (DogpileError F) (Unit {0})
  unfolding depth_overflow_error
  assert_depth_within_limit current_depth max_depth =
      if ltb max_depth (suc current_depth)
      then err (depth_overflow_error current_depth max_depth)
      else ok tt
