-- ===== src/Decisions/Parser.antt =====
-- The parser of src/runtime/decisions.ts as a whole: what it returns and what it throws.
use dogpile.Base.{◌≤◌, Option, none, some, String, All, length, Js, refl, arith}
use dogpile.Base.Result.{Result, ok, err, ◌>>=◌}
use dogpile.Data.Json.{Json, Items, null, bool, num, str, arr, obj, nil, cons}
use dogpile.Data.Agent.{ParticipateDecision, delegate, delegates}
use dogpile.Decisions.{
  parse_single_delegate_object, parse_items, parse_value, after_parse, parse_block,
  parse_delegate_decision, parse_participate_decision, parse_agent_decision, empty_array_error,
  json_error,
}
use dogpile.Decisions.Reading.{
  ParseContext, Texts, match_line, participation_of, and_then, as_decision, invalid_delegate,
}
use dogpile.Decisions.Allowed.{
  IsInvalid, Returns, IsFilled, Optionally, IsAllowed, IsReady, MayFollow, in_turn,
  and_then-Optionally, match_line-IsFilled, always,
}
use dogpile.Decisions.Parts.{as_record-Returns, parse_fields-Returns}

as_decision-MayFollow :
    (F : Type 0) (ctx : ParseContext) (o : Option ParticipateDecision)
    → Optionally IsReady o
    → Optionally (MayFollow {F = F} ctx) (as_decision o)
unfolding Optionally as_decision MayFollow
as_decision-MayFollow F ctx none p = p
as_decision-MayFollow F ctx (some x) p = p

module _ {F : Type 0} ⦃js : Js F⦄ where
  single-Returns :
      (texts : Texts F) (ctx : ParseContext) (v : Json F)
      → Returns (IsAllowed ctx) (parse_single_delegate_object texts ctx v)
  unfolding parse_single_delegate_object
  single-Returns texts ctx v =
      in_turn (λ fs. Unit {0}) (IsAllowed ctx) _ _ (as_record-Returns texts v)
        (λ fs u. parse_fields-Returns texts ctx fs)

  parse_items-Returns :
      (texts : Texts F) (ctx : ParseContext) (vs : Items F)
      → Returns (All (IsAllowed ctx)) (parse_items texts ctx vs)
  unfolding parse_items Returns
  parse_items-Returns texts ctx nil = tt
  parse_items-Returns texts ctx (cons v vs) =
      in_turn (IsAllowed ctx) (All (IsAllowed ctx)) _ _ (single-Returns texts ctx v) λ d allowed.
        in_turn (All (IsAllowed ctx)) (All (IsAllowed ctx)) _ _ (parse_items-Returns texts ctx vs)
          λ ds all. (allowed, all)

  some_participate-IsReady :
      (texts : Texts F) (output : String)
      → Optionally IsReady (parse_participate_decision texts output)
  unfolding parse_participate_decision Optionally IsReady
  some_participate-IsReady texts output =
      and_then-Optionally IsFilled IsReady _ _ (match_line-IsFilled _) λ selected_role a.
        and_then-Optionally (λ p. Unit {0}) IsReady _ _
          (always (and_then (match_line (texts.participation output)) participation_of))
          λ participation u.
            and_then-Optionally IsFilled IsReady _ _ (match_line-IsFilled _) λ rationale b.
              and_then-Optionally IsFilled IsReady _ _ (match_line-IsFilled _)
                λ contribution c. (a, b, c)

  one :
      (texts : Texts F) (ctx : ParseContext) (v : Json F)
      → Returns (MayFollow ctx) (parse_single_delegate_object texts ctx v >>= λ d. ok (delegate d))
  unfolding Returns MayFollow
  one texts ctx v =
      in_turn (IsAllowed ctx) (MayFollow ctx) _ _ (single-Returns texts ctx v)
        (λ d allowed. allowed)

  several :
      (texts : Texts F) (ctx : ParseContext) (v : Json F) (vs : Items F)
      → Returns (MayFollow ctx) (parse_items texts ctx (cons v vs) >>= λ ds. ok (delegates ds))
  unfolding Returns MayFollow parse_items
  several texts ctx v vs =
      in_turn (λ ds. (1 ≤ length ds) × All (IsAllowed ctx) ds) (MayFollow ctx) _ _
        (in_turn (IsAllowed ctx) (λ ds. (1 ≤ length ds) × All (IsAllowed ctx) ds) _ _
          (single-Returns texts ctx v)
          λ d allowed.
            in_turn (All (IsAllowed ctx)) (λ ds. (1 ≤ length ds) × All (IsAllowed ctx) ds) _ _
              (parse_items-Returns texts ctx vs)
              λ ds all_allowed. (omega arith, (allowed, all_allowed)))
        (λ ds p. p)

  parse_value-Returns :
      (texts : Texts F) (ctx : ParseContext) (v : Json F)
      → Returns (MayFollow ctx) (parse_value texts ctx v)
  unfolding parse_value Returns MayFollow IsInvalid empty_array_error invalid_delegate
  parse_value-Returns texts ctx (arr nil) = (refl, refl, (_, refl))
  parse_value-Returns texts ctx (arr (cons v vs)) = several texts ctx v vs
  parse_value-Returns texts ctx null = one texts ctx null
  parse_value-Returns texts ctx (bool b) = one texts ctx (bool b)
  parse_value-Returns texts ctx (num x) = one texts ctx (num x)
  parse_value-Returns texts ctx (str s) = one texts ctx (str s)
  parse_value-Returns texts ctx (obj fs) = one texts ctx (obj fs)

  after_parse-Returns :
      (texts : Texts F) (ctx : ParseContext) (json_text : String) (r : Result String (Json F))
      → Returns (MayFollow ctx) (after_parse texts ctx json_text r)
  unfolding after_parse Returns IsInvalid json_error invalid_delegate
  after_parse-Returns texts ctx json_text (ok v) = parse_value-Returns texts ctx v
  after_parse-Returns texts ctx json_text (err reason) = (refl, refl, (_, refl))

  parse_block-Returns :
      (texts : Texts F) (ctx : ParseContext) (output : String) (block : Option String)
      → Returns (Optionally (MayFollow ctx)) (parse_block texts ctx output block)
  unfolding parse_block parse_delegate_decision Returns Optionally as_decision MayFollow
  parse_block-Returns texts ctx output (some block) =
      in_turn (MayFollow ctx) (Optionally (MayFollow ctx)) _ _
        (after_parse-Returns texts ctx block (texts.json_parse block)) (λ d may. may)
  parse_block-Returns texts ctx output none =
      as_decision-MayFollow F ctx _ (some_participate-IsReady texts output)

  -- The parser of an agent's output returns no decision, or one that the run may act on, or else
  -- throws an error of the validation, an invalid configuration that is not retried. A delegate has an
  -- intent, a model only if it is that of the parent, caps on counts only, at least one concurrent
  -- child if it says how many, and stays within the limit on depth; an array has at least one; a
  -- participation has a role, a rationale and a contribution.
  pub parse_agent_decision-Returns :
      (texts : Texts F) (ctx : ParseContext) (output : String)
      → Returns (Optionally (MayFollow ctx)) (parse_agent_decision texts ctx output)
  unfolding parse_agent_decision
  parse_agent_decision-Returns texts ctx output =
      parse_block-Returns texts ctx output (texts.delegate_block output)
