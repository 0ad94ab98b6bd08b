-- ===== src/AgentOrder/Tests.antt =====
-- The order of two agents, with texts compared by their characters.
use Prim.Native.Nat.{Ordering, compare as compare_numbers}
use Prim.Native.Nat.Ordering.{lt, eq, gt}
use Prim.Native.Char.{code}
use Prim.Native.String.{compare, then as or_compare}
use Prim.Native.String.compare
use native.Mathlib.Omega.{arith}
use mathlib.Core.List.{Permᴰ}
use text.Mathlib.TextEquality.{path_by_compare}
use dogpile.Base.{
  ℕ, Bool, true, false, none, some, String, [], ◌∷◌, Js, ◌≡◌, refl, sym, ap, subst, ◌∙◌,
}
use dogpile.Base.Sorting.{Matched, IsOrdering, sort_with, insert_with, place, opposite}
use dogpile.Base.Sorting.Orders.{compare-IsOrdering, or_compare-less, opposite-or_compare}
use dogpile.Samples.{whole_js}
use dogpile.Data.Agent.{AgentSpec}
use dogpile.AgentOrder.{
  sort_agents, compare_agents_by_stable_identity, instructions_of, stable_hash, code_units,
  units_of, hash_from, locale_compare, sign, is_zero_temperature, order_agents_for_temperature,
}
use dogpile.AgentOrder.Canonical.{HasCollation, LooksLike, order_agents_for_temperature-canonical}

not_gt : Ordering → Bool
not_gt lt = true
not_gt eq = true
not_gt gt = false

abbrev text_js : Js ℕ
text_js = record whole_js { locale_le = λ a b. not_gt (compare a b) }

texts_flip : (s t : String) → compare t s ≡ opposite (compare s t)
unfolding opposite
texts_flip String.[] String.[] = compare.nil-nil ∙ ap opposite (sym compare.nil-nil)
texts_flip String.[] (String.◌∷◌ d t) =
    compare.cons-nil d t ∙ ap opposite (sym (compare.nil-cons d t))
texts_flip (String.◌∷◌ c s) String.[] =
    compare.nil-cons c s ∙ ap opposite (sym (compare.cons-nil c s))
texts_flip (String.◌∷◌ c s) (String.◌∷◌ d t) =
    compare.cons-cons d c t s
    ∙ ap (λ o. or_compare o (compare t s)) (compare-IsOrdering.flips (code c) (code d))
    ∙ ap (or_compare (opposite (compare_numbers (code c) (code d)))) (texts_flip s t)
    ∙ opposite-or_compare (compare_numbers (code c) (code d)) (compare s t)
    ∙ ap opposite (sym (compare.cons-cons c d s t))

never : {A : Type 0} → gt ≡ lt → A
never e = ground arith

texts_trans : (s t u : String) → compare s t ≡ lt → compare t u ≡ lt → compare s u ≡ lt
texts_trans String.[] String.[] String.[] e f = e
texts_trans String.[] (String.◌∷◌ d t) String.[] e f = never (sym (compare.cons-nil d t) ∙ f)
texts_trans String.[] t (String.◌∷◌ d u) e f = compare.nil-cons d u
texts_trans (String.◌∷◌ c s) String.[] u e f = never (sym (compare.cons-nil c s) ∙ e)
texts_trans (String.◌∷◌ c s) (String.◌∷◌ d t) String.[] e f = never (sym (compare.cons-nil d t) ∙ f)
texts_trans (String.◌∷◌ c s) (String.◌∷◌ d t) (String.◌∷◌ b u) e f =
    compare.cons-cons c b s u
    ∙ or_compare-less compare_numbers compare-IsOrdering (code c) (code d) (code b) _ _ _ _ _ refl
        refl (texts_trans s t u) (sym (compare.cons-cons c d s t) ∙ e)
        (sym (compare.cons-cons d b t u) ∙ f)

sign_of : (o : Ordering) → sign (not_gt o) (not_gt (opposite o)) ≡ o
unfolding sign not_gt opposite
sign_of lt = refl
sign_of eq = refl
sign_of gt = refl

texts_sign : (s t : String) → compare s t ≡ locale_compare text_js.locale_le s t
unfolding locale_compare
texts_sign s t =
    sym (sign_of (compare s t))
    ∙ ap (λ o. sign (not_gt (compare s t)) (not_gt o)) (sym (texts_flip s t))

text_js-HasCollation : HasCollation text_js.locale_le
text_js-HasCollation =
    subst IsOrdering (λ i s t. texts_sign s t i)
      (record {
        flips = texts_flip;
        less_trans = texts_trans;
        level = λ s t u e. ap (λ w. compare w u) (path_by_compare s t e);
      })

abbrev writer : AgentSpec
writer = record { id = "b"; role = "writer"; instructions = none }

abbrev critic : AgentSpec
critic = record { id = "a"; role = "critic"; instructions = some "Find faults." }

by_id :
    order_agents_for_temperature ⦃js = text_js⦄ (writer ∷ critic ∷ []) 0 none ≡ critic ∷ writer ∷ []
unfolding order_agents_for_temperature is_zero_temperature sort_agents
    compare_agents_by_stable_identity sort_with insert_with place locale_compare sign
    instructions_of not_gt
by_id = refl

-- The published value of the 32-bit hash FNV-1a.
hash_of_a : stable_hash "a" ≡ 0xe40c292c
unfolding stable_hash code_units units_of hash_from
hash_of_a = refl

zero_is_zero : is_zero_temperature ⦃js = text_js⦄ 0 ≡ true
unfolding is_zero_temperature
zero_is_zero = refl

order_agents_for_temperature-canonical_example :
    Matched
      (LooksLike text_js.locale_le)
      (order_agents_for_temperature ⦃js = text_js⦄ (writer ∷ critic ∷ []) 0 (some "7"))
      (order_agents_for_temperature ⦃js = text_js⦄ (critic ∷ writer ∷ []) 0 (some "7"))
order_agents_for_temperature-canonical_example =
    order_agents_for_temperature-canonical ⦃js = text_js⦄ (writer ∷ critic ∷ [])
      (critic ∷ writer ∷ []) 0 (some "7") text_js-HasCollation zero_is_zero (Permᴰ.swap refl refl)
