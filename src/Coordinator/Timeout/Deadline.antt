-- ===== src/Coordinator/Timeout/Deadline.antt =====
-- A delegate never outlives the deadline of its parent.
use dogpile.Base.{
  ℕ, suc, ◌+◌, ◌-◌, ◌≤◌, ◌<◌, min, Bool, true, false, Option, none, some, String, Js, ltb, ◌==◌,
  ◌≡◌, refl, sym, ◌∙◌, ap, ◌↔◌, inl, inr, arith, ltb→lt, subst, Bool-cases, if◌then◌else◌,
}
use mathlib.Core.Option.{some-injective}
use dogpile.Base.Result.{ok, err, after_check, checked, ok_injective}
use dogpile.Decisions.Depth.{assert_depth_within_limit}
use dogpile.Coordinator.Timeout.{
  DispatchOptions, ChildTimeout, dispatch_timeout, resolve_timeout, check_depth, check_deadline,
  check_protocol, remaining_ms,
}

-- The time that a delegate asks for, where it names none all that is left.
abbrev pub asked : Option ℕ → ℕ → ℕ
asked none remaining = remaining
asked (some decision) remaining = decision

-- The timeout is what was asked for, cut to the time that is left, and it is said to be clamped
-- exactly if the decision asked for more.
pub record IsWithin (now deadline : ℕ) (decision : Option ℕ) (t : ChildTimeout) : Type 0 where
  timeout : ℕ
  set : t.child_timeout_ms ≡ some timeout
  cut : timeout ≡ min (asked decision (deadline - now)) (deadline - now)
  in_time : now + timeout ≤ deadline
  clamped :
      (requested : ℕ)
      → (t.clamped_from ≡ some requested)
        ↔ ((decision ≡ some requested) × (deadline < now + requested))

not_less : (m n : ℕ) → ltb m n ≡ false → n ≤ m
not_less m n e = ground arith

later : (deadline now d r : ℕ) → some d ≡ some r → deadline < now + d → deadline < now + r
later deadline now d r p h = subst (λ x. deadline < now + x) (some-injective d r p) h

later_back : (deadline now d r : ℕ) → some d ≡ some r → deadline < now + r → deadline < now + d
later_back deadline now d r p h = subst (λ x. deadline < now + x) (sym (some-injective d r p)) h

resolved :
    (now deadline : ℕ) (decision fallback : Option ℕ)
    → now < deadline
    → IsWithin now deadline decision (resolve_timeout (some (deadline - now)) decision fallback)
unfolding resolve_timeout
resolved now deadline none fallback h = record {
  timeout = deadline - now;
  set = refl;
  cut = omega arith;
  in_time = omega (arith, h);
  clamped = λ r. (λ e. cc, λ (e, k). cc);
}
resolved now deadline (some d) fallback h = elim (Bool-cases (ltb (deadline - now) d)) [
  | inl e ↦ rw e (record {
    timeout = deadline - now;
    set = refl;
    cut = ground arith;
    in_time = omega (arith, h);
    clamped = λ r. (
      λ p. (p, later deadline now d r p (omega (arith, h, ltb→lt (deadline - now) d e))),
      λ (p, k). p,
    );
  })
  | inr e ↦ rw e (record {
    timeout = d;
    set = refl;
    cut = ground arith;
    in_time = omega (arith, h, not_less (deadline - now) d e);
    clamped = λ r. (
      λ p. cc,
      λ (p, k).
          absurd (omega (arith, h, not_less (deadline - now) d e, later_back deadline now d r p k)),
    );
  })
]

passed : {E : Type 0} (b : Bool) (x : E) → (if b then err x else ok tt) ≡ ok tt → b ≡ false
passed true x e = cc
passed false x e = refl

not_zero : (n : ℕ) → (n == 0) ≡ false → 0 < n
not_zero n e = ground arith

-- Where there is a limit on the depth, a delegate is one deeper and still within it.
abbrev pub DepthAllowed : Option ℕ → ℕ → Type 0
DepthAllowed none depth = Unit {0}
DepthAllowed (some max_depth) depth = suc depth ≤ max_depth

module _ {F : Type 0} ⦃js : Js F⦄ where
  not_elapsed :
      (model : String) (deadline now : ℕ)
      → check_deadline {F = F} model (some (deadline - now)) ≡ ok tt
      → now < deadline
  unfolding check_deadline
  not_elapsed model deadline now e =
      omega (arith, not_zero (deadline - now) (passed (deadline - now == 0) _ e))

  allowed :
      (depth : ℕ) (limit : Option ℕ)
      → check_depth {F = F} depth limit ≡ ok tt
      → DepthAllowed limit depth
  unfolding check_depth assert_depth_within_limit
  allowed depth none e = tt
  allowed depth (some limit) e = not_less limit (suc depth) (passed (ltb limit (suc depth)) _ e)

  -- Where the parent run has a deadline and a delegate is started: its depth is within the limit; it
  -- gets what it asked for, or all that is left, cut to the time that is left, so that it ends by the
  -- deadline of its parent; and the timeout is said to be clamped, with what was asked for, exactly if
  -- the decision asked for more than is left.
  pub dispatch_timeout-IsWithin :
      (o : DispatchOptions) (now deadline : ℕ) (t : ChildTimeout)
      → o.parent_deadline_ms ≡ some deadline
      → dispatch_timeout {F = F} o now ≡ ok t
      → DepthAllowed o.effective_max_depth o.parent_depth
        × IsWithin now deadline o.decision_timeout_ms t
  unfolding dispatch_timeout remaining_ms
  dispatch_timeout-IsWithin o now deadline t d e =
      let left = ap (λ x. remaining_ms x now) d in
      let after_depth = after_check (check_depth o.parent_depth o.effective_max_depth) _ t e in
      let deadline_ok =
        checked (check_deadline o.model_id (remaining_ms o.parent_deadline_ms now)) _ t
          after_depth in
      let after_deadline =
        after_check (check_deadline o.model_id (remaining_ms o.parent_deadline_ms now)) _ t
          after_depth in
      let result =
        ok_injective (after_check (check_protocol o.has_run_protocol) _ t after_deadline) in
      let h =
        not_elapsed o.model_id deadline now
          (subst (λ x. check_deadline {F = F} o.model_id x ≡ ok tt) left deadline_ok) in
      (
        allowed o.parent_depth o.effective_max_depth (checked _ _ t e),
        subst (IsWithin now deadline o.decision_timeout_ms)
            (ap (λ x. resolve_timeout x o.decision_timeout_ms o.default_sub_run_timeout_ms)
                (sym left)
              ∙ result)
            (resolved now deadline o.decision_timeout_ms o.default_sub_run_timeout_ms h),
      )
