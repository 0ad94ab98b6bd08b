-- ===== src/Retry/Delay.antt =====
-- How long a retry waits.
use dogpile.Base.{
  ℕ, ◌-◌, ◌^◌, ◌&&◌, Bool, true, false, Option, none, some, Js, IsOrdered, HasScaling, ◌≡◌, refl,
  ◌∙◌, sym, ap, inl, inr, Option-cases, if◌then◌else◌,
}
use dogpile.Data.Error.{Thrown}
use dogpile.Retry.{
  Settings, Jitter, full, none_jitter, choose_delay, usable, override_delay, with_jitter,
}

kept :
    {F : Type 0} (b c : Bool) (x d : F)
    → (if b && c then some x else none) ≡ some d
    → (c ≡ true) × (x ≡ d)
kept true true x d e = (refl, cc)
kept true false x d e = (cc, cc)
kept false c x d e = (cc, cc)

module _ {F : Type 0} ⦃js : Js F⦄ where
  usable-positive : (o : Option F) (d : F) → usable o ≡ some d → js.le (js.of_nat 0) d ≡ true
  unfolding usable
  usable-positive none d e = cc
  usable-positive (some x) d e =
      let (positive, same) = kept (js.is_finite x) (js.le (js.of_nat 0) x) x d e in
      ap (js.le (js.of_nat 0)) (sym same) ∙ positive

  capped :
      IsOrdered js
      → (limit x : F) → js.le (js.of_nat 0) limit ≡ true
      → js.le (js.of_nat 0) x ≡ true
      → js.le (js.min_of limit x) limit ≡ true
  capped o limit x p q = o.min_of-left limit x (o.le_right _ limit p) (o.le_right _ x q)

  jittered :
      IsOrdered js
      → HasScaling js
      → (jitter : Jitter) (random limit x : F) → js.le (js.of_nat 0) random ≡ true
      → js.lt random (js.of_nat 1) ≡ true
      → js.is_finite limit ≡ true
      → js.le (js.of_nat 0) limit ≡ true
      → js.le (js.of_nat 0) x ≡ true
      → js.le (with_jitter jitter random (js.min_of limit x)) limit ≡ true
  unfolding with_jitter
  jittered o scaling none_jitter random limit x r s finite p q = capped o limit x p q
  jittered o scaling full random limit x r s finite p q =
      let below = capped o limit x p q in
      let above = o.min_of-above (js.of_nat 0) limit x p q in
      scaling.floor_le _ limit (
        o.le_trans _ (js.min_of limit x) limit
          (scaling.mul_le (js.min_of limit x) limit random above below finite r s) below)

  -- On the floats, with a finite limit and a back-off that are not negative and a random number in
  -- `[0, 1)`: the delay before a retry, also one that the error or the caller asks for, is at most the
  -- limit.
  pub choose_delay-le :
      IsOrdered js
      → HasScaling js
      → (settings : Settings F) (random : F) (attempt : ℕ) (e : Thrown F)
      → js.le (js.of_nat 0) random ≡ true
      → js.lt random (js.of_nat 1) ≡ true
      → js.is_finite settings.max_delay_ms ≡ true
      → js.le (js.of_nat 0) settings.max_delay_ms ≡ true
      → js.le (js.of_nat 0) (js.mul settings.base_delay_ms (js.of_nat (2 ^ (attempt - 1)))) ≡ true
      → js.le (choose_delay settings random attempt e) settings.max_delay_ms ≡ true
  unfolding choose_delay
  choose_delay-le o scaling settings random attempt e r s finite p q =
      elim (Option-cases (usable (override_delay settings e))) [
        | inl n ↦
            rw (n, choose_delay)
              (jittered o scaling settings.jitter random settings.max_delay_ms _ r s finite p q)
        | inr (d, h) ↦
            rw (h, choose_delay)
              (capped o settings.max_delay_ms d p (usable-positive (override_delay settings e) d h))
      ]
