-- ===== src/Decisions/Parts.antt =====
-- What each property of a delegate satisfies where the parser of src/runtime/decisions.ts accepts it.
use dogpile.Base.{
  ℕ, suc, leb, ltb, ◌≤◌, Option, none, some, String, Js, str_eq, str_eq_iff, if◌then◌else◌, refl,
  Bool-cases, inl, inr, leb→le, arith, trim,
}
use dogpile.Data.Json.{Json, Fields, null, bool, num, str, arr, obj}
use dogpile.Data.Error.{DogpileError}
use dogpile.Decisions.Depth.{depth_overflow_error}
use dogpile.Decisions.{
  whole_from, parse_whole, parse_budget_fields, parse_delegate_budget, parse_optional_budget,
  check_parse_depth, parse_fields, children_error, budget_error, budget_shape_error,
}
use dogpile.Decisions.Reading.{
  ParseContext, Texts, protocol_of_name, and_then, as_record, parse_protocol, parse_intent,
  check_parent_model, parse_model, invalid_delegate, record_error, protocol_error, intent_error,
  model_error, parent_model_error,
}
use dogpile.Decisions.Allowed.{
  IsInvalid, Returns, IsFilled, Optionally, IsWithinDepth, IsModelFor, SetsCountsOnly, IsAllowed,
  in_turn, filled-Optionally, or_throw-Returns, always,
}

check_parent_model-Returns :
    (F : Type 0) (parent : Option String) (model : String)
    → IsFilled model
    → Returns {F = F} (Optionally (IsModelFor parent)) (check_parent_model parent model)
unfolding check_parent_model Returns IsInvalid IsModelFor Optionally parent_model_error
    invalid_delegate
check_parent_model-Returns F none model f = (f, tt)
check_parent_model-Returns F (some parent) model f = elim (Bool-cases (str_eq model parent)) [
  | inl e ↦ rw e (f, (str_eq_iff model parent).0 e)
  | inr e ↦ rw e (refl, refl, (_, refl))
]

check_parse_depth-Returns :
    (F : Type 0) ⦃js : Js F⦄ (current limit : Option ℕ)
    → Returns {F = F} (λ u. IsWithinDepth current limit) (check_parse_depth current limit)
unfolding check_parse_depth Returns IsWithinDepth IsInvalid depth_overflow_error
check_parse_depth-Returns F none limit = tt
check_parse_depth-Returns F (some current) none = tt
check_parse_depth-Returns F (some current) (some limit) =
    elim (Bool-cases (ltb limit (suc current))) [
      | inl e ↦ rw e (refl, refl, (_, refl))
      | inr e ↦ rw e (ground (arith, e))
    ]

module _ {F : Type 0} where
  pub as_record-Returns :
      (texts : Texts F) (v : Json F) → Returns (λ fs. Unit {0}) (as_record texts v)
  unfolding as_record Returns IsInvalid record_error invalid_delegate
  as_record-Returns texts (obj fs) = tt
  as_record-Returns texts (arr xs) = tt
  as_record-Returns texts null = (refl, refl, (_, refl))
  as_record-Returns texts (bool b) = (refl, refl, (_, refl))
  as_record-Returns texts (num x) = (refl, refl, (_, refl))
  as_record-Returns texts (str s) = (refl, refl, (_, refl))

  parse_protocol-Returns :
      (texts : Texts F) (v : Option (Json F)) → Returns (λ p. Unit {0}) (parse_protocol texts v)
  unfolding parse_protocol Returns IsInvalid protocol_error invalid_delegate
  parse_protocol-Returns texts (some (str s)) =
      or_throw-Returns (λ p. Unit {0}) _ _ (refl, refl, (_, refl)) (always (protocol_of_name s))
  parse_protocol-Returns texts none = (refl, refl, (_, refl))
  parse_protocol-Returns texts (some null) = (refl, refl, (_, refl))
  parse_protocol-Returns texts (some (bool b)) = (refl, refl, (_, refl))
  parse_protocol-Returns texts (some (num x)) = (refl, refl, (_, refl))
  parse_protocol-Returns texts (some (arr x)) = (refl, refl, (_, refl))
  parse_protocol-Returns texts (some (obj x)) = (refl, refl, (_, refl))

  parse_intent-Returns :
      (texts : Texts F) (v : Option (Json F)) → Returns IsFilled (parse_intent texts v)
  unfolding parse_intent Returns IsInvalid intent_error invalid_delegate
  parse_intent-Returns texts (some (str s)) =
      or_throw-Returns IsFilled _ _ (refl, refl, (_, refl)) (filled-Optionally (some (trim s)))
  parse_intent-Returns texts v = (refl, refl, (_, refl))

  parse_model-Returns :
      (texts : Texts F) (parent : Option String) (v : Option (Json F))
      → Returns (Optionally (IsModelFor parent)) (parse_model texts parent v)
  unfolding parse_model Returns IsInvalid model_error invalid_delegate Optionally
  parse_model-Returns texts parent none = tt
  parse_model-Returns texts parent (some (str s)) =
      in_turn IsFilled (Optionally (IsModelFor parent)) _ _
        (or_throw-Returns IsFilled _ _ (refl, refl, (_, refl)) (filled-Optionally (some s)))
        (check_parent_model-Returns F parent)
  parse_model-Returns texts parent (some null) = (refl, refl, (_, refl))
  parse_model-Returns texts parent (some (bool b)) = (refl, refl, (_, refl))
  parse_model-Returns texts parent (some (num x)) = (refl, refl, (_, refl))
  parse_model-Returns texts parent (some (arr x)) = (refl, refl, (_, refl))
  parse_model-Returns texts parent (some (obj x)) = (refl, refl, (_, refl))

module _ {F : Type 0} ⦃js : Js F⦄ where
  whole_from-least : (least : ℕ) (v : Json F) → Optionally (λ n. least ≤ n) (whole_from least v)
  unfolding whole_from Optionally
  whole_from-least least (num x) =
      elim (js.whole x)
        as (λ o.
          Optionally (λ n. least ≤ n) (and_then o (λ n. if leb least n then some n else none))) [
            | none ↦ tt
            | some n ↦ elim (Bool-cases (leb least n)) [
              | inl e ↦ rw e (leb→le least n e)
              | inr e ↦ rw e tt
            ]
          ]
  whole_from-least least v = tt

  parse_whole-Returns :
      (least : ℕ) (make : Json F → DogpileError F) (v : Option (Json F))
      → ((v : Json F) → IsInvalid (make v))
      → Returns (Optionally (λ n. least ≤ n)) (parse_whole least make v)
  unfolding parse_whole Returns Optionally
  parse_whole-Returns least make none invalid = tt
  parse_whole-Returns least make (some v) invalid =
      in_turn (λ n. least ≤ n) (Optionally (λ n. least ≤ n)) _ _
        (or_throw-Returns (λ n. least ≤ n) _ _ (invalid v) (whole_from-least least v)) (λ n le. le)

  parse_budget_fields-Returns :
      (texts : Texts F) (fs : Fields F) → Returns SetsCountsOnly (parse_budget_fields texts fs)
  unfolding parse_budget_fields Returns SetsCountsOnly IsInvalid budget_error invalid_delegate
  parse_budget_fields-Returns texts fs =
      in_turn (Optionally (λ n. 0 ≤ n)) SetsCountsOnly _ _
        (parse_whole-Returns 0 _ _ (λ v. (refl, refl, (_, refl))))
        λ timeout_ms p.
          in_turn (Optionally (λ n. 0 ≤ n)) SetsCountsOnly _ _
            (parse_whole-Returns 0 _ _ (λ v. (refl, refl, (_, refl))))
            λ max_tokens q.
              in_turn (Optionally (λ n. 0 ≤ n)) SetsCountsOnly _ _
                (parse_whole-Returns 0 _ _ (λ v. (refl, refl, (_, refl))))
                λ max_iterations r. (refl, refl)

  parse_delegate_budget-Returns :
      (texts : Texts F) (v : Json F) → Returns SetsCountsOnly (parse_delegate_budget texts v)
  unfolding parse_delegate_budget Returns IsInvalid budget_shape_error invalid_delegate
  parse_delegate_budget-Returns texts (obj fs) = parse_budget_fields-Returns texts fs
  parse_delegate_budget-Returns texts null = (refl, refl, (_, refl))
  parse_delegate_budget-Returns texts (bool b) = (refl, refl, (_, refl))
  parse_delegate_budget-Returns texts (num x) = (refl, refl, (_, refl))
  parse_delegate_budget-Returns texts (str s) = (refl, refl, (_, refl))
  parse_delegate_budget-Returns texts (arr xs) = (refl, refl, (_, refl))

  parse_optional_budget-Returns :
      (texts : Texts F) (v : Option (Json F))
      → Returns (Optionally SetsCountsOnly) (parse_optional_budget texts v)
  unfolding parse_optional_budget Returns Optionally
  parse_optional_budget-Returns texts none = tt
  parse_optional_budget-Returns texts (some v) =
      in_turn SetsCountsOnly (Optionally SetsCountsOnly) _ _ (parse_delegate_budget-Returns texts v)
        (λ caps p. p)

  pub parse_fields-Returns :
      (texts : Texts F) (ctx : ParseContext) (fs : Fields F)
      → Returns (IsAllowed ctx) (parse_fields texts ctx fs)
  unfolding parse_fields Returns IsAllowed IsInvalid children_error invalid_delegate
  parse_fields-Returns texts ctx fs =
      in_turn (λ p. Unit {0}) (IsAllowed ctx) _ _ (parse_protocol-Returns texts _)
        λ protocol u.
          in_turn IsFilled (IsAllowed ctx) _ _ (parse_intent-Returns texts _)
            λ intent filled_intent.
              in_turn (Optionally (IsModelFor ctx.parent_provider_id)) (IsAllowed ctx) _ _
                (parse_model-Returns texts _ _)
                λ model fits.
                  in_turn (Optionally SetsCountsOnly) (IsAllowed ctx) _ _
                    (parse_optional_budget-Returns texts _)
                    λ budget counts.
                      in_turn (Optionally (λ n. 1 ≤ n)) (IsAllowed ctx) _ _
                        (parse_whole-Returns 1 _ _ (λ v. (refl, refl, (_, refl))))
                        λ children positive.
                          in_turn (λ u. IsWithinDepth ctx.current_depth ctx.max_depth)
                            (IsAllowed ctx) _ _
                            (check_parse_depth-Returns F ctx.current_depth ctx.max_depth)
                            λ u within. (filled_intent, fits, counts, positive, within)
