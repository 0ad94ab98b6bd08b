-- ===== src/AgentOrder.antt =====
-- The agents of a run (src/runtime/defaults.ts): the default agents and `orderAgentsForTemperature`,
-- with the hash of a seed. The signed 32-bit hash of the source is kept modulo 2 ^ 32.
mod Canonical
mod Tests
use Prim.Native.Nat.{bit_xor, ◌%◌, Ordering, compare as compare_numbers}
use Prim.Native.Nat.Ordering.{lt, eq, gt}
use Prim.Native.Char.{code}
use Prim.Native.String.{◌++◌ as str_append, then as or_compare}
use dogpile.Base.{
  ℕ, Bool, true, false, ◌&&◌, Option, none, some, get_or, String, List, [], ◌∷◌, Js, ltb, ◌^◌, ◌+◌,
  ◌*◌, ◌-◌, ◌/◌, if◌then◌else◌,
}
use dogpile.Base.Sorting.{sort_with}
use dogpile.Data.Agent.{AgentSpec}

abbrev pub default_agents : List AgentSpec
default_agents =
    record {
      id = "agent-1";
      role = "planner";
      instructions = some "Frame the mission and identify the important constraints.";
    }
    ∷ record {
      id = "agent-2";
      role = "critic";
      instructions = some "Stress-test the previous contribution and improve weak spots.";
    }
    ∷ record {
      id = "agent-3";
      role = "synthesizer";
      instructions = some "Produce the final useful answer from the accumulated work.";
    }
    ∷ []

-- `agent.instructions ?? ""`.
unfoldable pub instructions_of : AgentSpec → String
instructions_of a = elim a.instructions [ none ↦ "" | some s ↦ s ]

-- The code units of a character: two of them above 0xffff.
unfoldable pub units_of : ℕ → List ℕ → List ℕ
units_of c rest =
    if ltb c 0x10000
    then c ∷ rest
    else (0xd800 + (c - 0x10000) / 0x400) ∷ (0xdc00 + (c - 0x10000) % 0x400) ∷ rest

unfoldable pub code_units : String → List ℕ
unfolding units_of
code_units String.[] = []
code_units (String.◌∷◌ c s) = units_of (code c) (code_units s)

unfoldable pub hash_from : ℕ → List ℕ → ℕ
hash_from hash [] = hash
hash_from hash (c ∷ cs) = hash_from (bit_xor hash c * 0x01000193 % 2 ^ 32) cs

unfoldable pub stable_hash : String → ℕ
unfolding hash_from code_units
stable_hash input = hash_from 0x811c9dc5 (code_units input)

-- The parts of an agent that the order reads.
abbrev pub Identity : Type 0
Identity = String × (String × String)

unfoldable pub agent_identity : AgentSpec → Identity
unfolding instructions_of
agent_identity a = (a.id, (a.role, instructions_of a))

unfoldable pub seeded_text : String → Identity → String
seeded_text seed k =
    str_append seed (
      str_append "\0" (str_append k.0 (str_append "\0" (str_append k.1.0 (str_append "\0" k.1.1)))))

unfoldable pub deterministic_selection_score : String → AgentSpec → ℕ
unfolding stable_hash seeded_text agent_identity
deterministic_selection_score seed a = stable_hash (seeded_text seed (agent_identity a))

unfoldable pub sign : Bool → Bool → Ordering
sign true true = eq
sign true false = lt
sign false b = gt

-- `locale_le a b` is `a.localeCompare(b) <= 0`.
module _ (locale_le : String → String → Bool) where
  -- The sign of `a.localeCompare(b)`.
  unfoldable pub locale_compare : String → String → Ordering
  unfolding sign
  locale_compare a b = sign (locale_le a b) (locale_le b a)

  unfoldable pub compare_agents_by_stable_identity : AgentSpec → AgentSpec → Ordering
  unfolding locale_compare instructions_of
  compare_agents_by_stable_identity left right = or_compare (locale_compare left.id right.id) (
      or_compare (locale_compare left.role right.role)
        (locale_compare (instructions_of left) (instructions_of right)))

  unfoldable pub compare_agents_by_seeded_selection : String → AgentSpec → AgentSpec → Ordering
  unfolding deterministic_selection_score compare_agents_by_stable_identity
  compare_agents_by_seeded_selection seed left right =
      or_compare
        (compare_numbers (deterministic_selection_score seed left)
          (deterministic_selection_score seed right))
        (compare_agents_by_stable_identity left right)

  unfoldable pub sort_agents : Option String → List AgentSpec → List AgentSpec
  unfolding compare_agents_by_seeded_selection compare_agents_by_stable_identity sort_with
  sort_agents (some seed) agents = sort_with (compare_agents_by_seeded_selection seed) agents
  sort_agents none agents = sort_with compare_agents_by_stable_identity agents

module _ {F : Type 0} ⦃js : Js F⦄ where
  -- `temperature === 0`.
  unfoldable pub is_zero_temperature : F → Bool
  is_zero_temperature t = js.le t (js.of_nat 0) && js.le (js.of_nat 0) t

  unfoldable pub order_agents_for_temperature : List AgentSpec → F → Option String → List AgentSpec
  unfolding sort_agents is_zero_temperature
  order_agents_for_temperature agents temperature seed =
      if is_zero_temperature temperature then sort_agents js.locale_le seed agents else agents
