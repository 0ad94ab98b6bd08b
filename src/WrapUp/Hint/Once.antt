-- ===== src/WrapUp/Hint/Once.antt =====
-- A controller over all the model turns of a run.
use dogpile.Base.{
  Bool, true, false, List, [], ◌∷◌, ◌++◌, map, some, get_or, Js, ◌≡◌, refl, ap, ◌⊎◌, inl, inr, All,
  Bool-cases,
}
use dogpile.Data.Model.{ModelMessage}
use dogpile.WrapUp.Hint.{
  ControllerOptions, ContextOptions, HintConfig, inject, controller_context,
  should_inject_wrap_up_hint, insert_hint, default_wrap_up_hint,
}

-- The arguments of one call of `inject`.
pub record Call (F : Type 0) : Type 0 where
  pub messages : List ModelMessage
  pub context : ContextOptions F

module _ {F : Type 0} ⦃js : Js F⦄ where
  -- What the calls return, one after the other on one controller.
  pub inject_all : ControllerOptions F → Bool → List (Call F) → List (List ModelMessage)
  inject_all options emitted [] = []
  inject_all options emitted (call ∷ calls) =
      let r = inject options emitted call.messages call.context in
      r.0 ∷ inject_all options r.1 calls

  -- The hint is due at a call.
  abbrev pub is_due : ControllerOptions F → HintConfig F → Call F → Bool
  is_due options hint call =
      should_inject_wrap_up_hint hint (controller_context options call.context)

  abbrev pub with_hint : ControllerOptions F → HintConfig F → Call F → List ModelMessage
  with_hint options hint call =
      let ctx = controller_context options call.context in
      insert_hint (get_or hint.inject default_wrap_up_hint ctx) call.messages

  -- The first call at which the hint is due, and what is returned around it.
  pub record HintedOnce (options : ControllerOptions F) (hint : HintConfig F)
      (calls : List (Call F)) (returned : List (List ModelMessage)) : Type 0 where
    before : List (Call F)
    hinted : Call F
    after : List (Call F)
    split : calls ≡ before ++ hinted ∷ after
    not_before : All (λ c. is_due options hint c ≡ false) before
    due : is_due options hint hinted ≡ true
    returns :
        returned
        ≡ map (λ c. c.messages) before
          ++ with_hint options hint hinted ∷ map (λ c. c.messages) after

  abbrev pub NeverHinted :
      ControllerOptions F → HintConfig F → List (Call F) → List (List ModelMessage) → Type 0
  NeverHinted options hint calls returned =
      All (λ c. is_due options hint c ≡ false) calls × (returned ≡ map (λ c. c.messages) calls)

  after_hint :
      (options : ControllerOptions F) (hint : HintConfig F)
      → options.wrap_up_hint ≡ some hint
      → (calls : List (Call F)) → inject_all options true calls ≡ map (λ c. c.messages) calls
  unfolding inject_all inject
  after_hint options hint e [] = refl
  after_hint options hint e (call ∷ calls) =
      rw e (ap (λ r. call.messages ∷ r) (after_hint options hint e calls))

  inject_due :
      (options : ControllerOptions F) (hint : HintConfig F)
      → options.wrap_up_hint ≡ some hint
      → (call : Call F) → is_due options hint call ≡ true
      → inject options false call.messages call.context ≡ (with_hint options hint call, true)
  unfolding inject
  inject_due options hint e call d = rw (e, d) refl

  inject_early :
      (options : ControllerOptions F) (hint : HintConfig F)
      → options.wrap_up_hint ≡ some hint
      → (call : Call F) → is_due options hint call ≡ false
      → inject options false call.messages call.context ≡ (call.messages, false)
  unfolding inject
  inject_early options hint e call d = rw (e, d) refl

  later :
      (options : ControllerOptions F) (hint : HintConfig F) (call : Call F) (calls : List (Call F))
      (returned : List (List ModelMessage))
      → is_due options hint call ≡ false
      → NeverHinted options hint calls returned ⊎ HintedOnce options hint calls returned
      → NeverHinted options hint (call ∷ calls) (call.messages ∷ returned)
        ⊎ HintedOnce options hint (call ∷ calls) (call.messages ∷ returned)
  later options hint call calls returned d (inl (n, e)) =
      inl ((d, n), ap (λ r. call.messages ∷ r) e)
  later options hint call calls returned d (inr h) = inr (record {
    before = call ∷ h.before;
    hinted = h.hinted;
    after = h.after;
    split = ap (λ r. call ∷ r) h.split;
    not_before = (d, h.not_before);
    due = h.due;
    returns = ap (λ r. call.messages ∷ r) h.returns;
  })

  -- Over all the model turns of a run whose controller has a hint: either the hint is due at no turn
  -- and every turn gets its messages unchanged, or exactly the first turn at which it is due gets its
  -- messages with the hint inserted and every other turn gets them unchanged.
  pub inject_all_cases :
      (options : ControllerOptions F) (hint : HintConfig F)
      → options.wrap_up_hint ≡ some hint
      → (calls : List (Call F))
      → NeverHinted options hint calls (inject_all options false calls)
        ⊎ HintedOnce options hint calls (inject_all options false calls)
  unfolding inject_all
  inject_all_cases options hint e [] = inl (tt, refl)
  inject_all_cases options hint e (call ∷ calls) = elim (Bool-cases (is_due options hint call)) [
    | inl d ↦ rw (inject_due options hint e call d) (
        inr (record {
          before = [];
          hinted = call;
          after = calls;
          split = refl;
          not_before = tt;
          due = d;
          returns = ap (λ r. with_hint options hint call ∷ r) (after_hint options hint e calls);
        }))
    | inr d ↦ rw (inject_early options hint e call d) (
        later options hint call calls (inject_all options false calls) d
          (inject_all_cases options hint e calls))
  ]
