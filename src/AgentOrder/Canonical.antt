-- ===== src/AgentOrder/Canonical.antt =====
-- The order of the agents at temperature zero (src/runtime/defaults.ts).
use Prim.Native.Nat.{compare as compare_numbers}
use Prim.Native.Nat.Ordering.{eq}
use mathlib.Core.List.{Permᴰ}
use dogpile.Base.{true, Option, none, some, String, List, Js, Bool, ◌≡◌}
use dogpile.Base.Sorting.{IsOrdering, Matched, Matched-weaken}
use dogpile.Base.Sorting.Alike.{sort_with-Matched}
use dogpile.Base.Sorting.Orders.{
  pullback-IsOrdering, or_compare-IsOrdering, or_compare-level, compare-IsOrdering,
}
use dogpile.Data.Agent.{AgentSpec}
use dogpile.AgentOrder.{
  instructions_of, deterministic_selection_score, locale_compare, compare_agents_by_stable_identity,
  compare_agents_by_seeded_selection, sort_agents, is_zero_temperature,
  order_agents_for_temperature,
}

-- `localeCompare` is a consistent comparator (ECMAScript). Distinct texts may compare as equal.
abbrev pub HasCollation : (String → String → Bool) → Type 0
HasCollation le = IsOrdering (locale_compare le)

-- The ids, the roles and the instructions of two agents compare as equal.
abbrev pub LooksLike : (String → String → Bool) → AgentSpec → AgentSpec → Type 0
LooksLike le a b =
    (locale_compare le a.id b.id ≡ eq)
    × (locale_compare le a.role b.role ≡ eq)
    × (locale_compare le (instructions_of a) (instructions_of b) ≡ eq)

module _ (le : String → String → Bool) where
  stable-IsOrdering : HasCollation le → IsOrdering (compare_agents_by_stable_identity le)
  unfolding compare_agents_by_stable_identity
  stable-IsOrdering laws =
      or_compare-IsOrdering _ _ (pullback-IsOrdering (λ a. a.id) (locale_compare le) laws) (
        or_compare-IsOrdering _ _ (pullback-IsOrdering (λ a. a.role) (locale_compare le) laws)
          (pullback-IsOrdering instructions_of (locale_compare le) laws))

  seeded-IsOrdering :
      (seed : String) → HasCollation le → IsOrdering (compare_agents_by_seeded_selection le seed)
  unfolding compare_agents_by_seeded_selection
  seeded-IsOrdering seed laws =
      or_compare-IsOrdering _ _
        (pullback-IsOrdering (deterministic_selection_score seed) compare_numbers
          compare-IsOrdering)
        (stable-IsOrdering laws)

  stable-LooksLike :
      (a b : AgentSpec) → compare_agents_by_stable_identity le a b ≡ eq → LooksLike le a b
  unfolding compare_agents_by_stable_identity
  stable-LooksLike a b h =
      let (id, rest) = or_compare-level _ _ h in
      let (role, instructions) = or_compare-level _ _ rest in (id, role, instructions)

  seeded-LooksLike :
      (seed : String) (a b : AgentSpec)
      → compare_agents_by_seeded_selection le seed a b ≡ eq
      → LooksLike le a b
  unfolding compare_agents_by_seeded_selection
  seeded-LooksLike seed a b h = stable-LooksLike a b (or_compare-level _ _ h).1

  sort_agents-canonical :
      (agents agents' : List AgentSpec) (seed : Option String)
      → HasCollation le
      → Permᴰ agents agents'
      → Matched (LooksLike le) (sort_agents le seed agents) (sort_agents le seed agents')
  unfolding sort_agents
  sort_agents-canonical agents agents' none laws p =
      Matched-weaken _ (LooksLike le) _ _ stable-LooksLike
        (sort_with-Matched (compare_agents_by_stable_identity le) (stable-IsOrdering laws) p)
  sort_agents-canonical agents agents' (some seed) laws p =
      Matched-weaken _ (LooksLike le) _ _ (seeded-LooksLike seed) (
        sort_with-Matched (compare_agents_by_seeded_selection le seed) (seeded-IsOrdering seed laws)
          p)

module _ {F : Type 0} ⦃js : Js F⦄ where
  -- At temperature zero, where `localeCompare` is a consistent comparator, the agents come in the same
  -- order however the caller arranged them, with a seed or without one: place by place, the ids, the
  -- roles and the instructions of the two outcomes are texts that `localeCompare` does not tell apart.
  pub order_agents_for_temperature-canonical :
      (agents agents' : List AgentSpec) (temperature : F) (seed : Option String)
      → HasCollation js.locale_le
      → is_zero_temperature temperature ≡ true
      → Permᴰ agents agents'
      → Matched
          (LooksLike js.locale_le)
          (order_agents_for_temperature agents temperature seed)
          (order_agents_for_temperature agents' temperature seed)
  unfolding order_agents_for_temperature
  order_agents_for_temperature-canonical agents agents' temperature seed laws e p =
      rw e (sort_agents-canonical js.locale_le agents agents' seed laws p)
