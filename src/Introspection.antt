-- ===== src/Introspection.antt =====
-- `queryEvents` of src/runtime/introspection.ts. The set of turns in range holds the event objects;
-- here an event is known by its index in the array.
pub mod Single
mod Tests
use dogpile.Base.{
  ℕ, suc, Bool, true, false, ◌&&◌, ◌||◌, Option, none, some, String, List, [], ◌∷◌, map, filter, Js,
  ◌==◌, str_eq, if◌then◌else◌,
}
use dogpile.Data.Replay.{EventType}
use dogpile.Data.Trace.{
  RunEvent, type_of, role_assignment, model_request, model_response, model_output_chunk, tool_call,
  tool_result, agent_turn, broadcast,
}

pub record Range (F : Type 0) : Type 0 where
  pub min : Option F
  pub max : Option F

pub record EventQueryFilter (F : Type 0) : Type 0 where
  pub event_type : Option EventType
  pub agent_id : Option String
  pub turn_range : Option (Range F)
  pub cost_range : Option (Range F)

type_code : EventType → ℕ
type_code EventType.role_assignment = 0
type_code EventType.model_request = 1
type_code EventType.model_response = 2
type_code EventType.model_output_chunk = 3
type_code EventType.tool_call = 4
type_code EventType.tool_result = 5
type_code EventType.agent_turn = 6
type_code EventType.broadcast = 7
type_code EventType.budget_stop = 8
type_code EventType.final = 9
type_code EventType.sub_run_started = 10
type_code EventType.sub_run_completed = 11
type_code EventType.sub_run_failed = 12
type_code EventType.sub_run_parent_aborted = 13
type_code EventType.sub_run_budget_clamped = 14
type_code EventType.sub_run_queued = 15
type_code EventType.sub_run_concurrency_clamped = 16

unfoldable pub same_type : EventType → EventType → Bool
unfolding type_code
same_type a b = type_code a == type_code b

is_agent : Option String → String → Bool
is_agent none agent = false
is_agent (some id) agent = str_eq id agent

module _ {F : Type 0} where
  -- `"agentId" in event && event.agentId === agentId`.
  unfoldable pub by_agent : String → RunEvent F → Bool
  unfolding is_agent
  by_agent agent (role_assignment e) = str_eq e.agent_id agent
  by_agent agent (model_request e) = str_eq e.agent_id agent
  by_agent agent (model_response e) = str_eq e.agent_id agent
  by_agent agent (model_output_chunk e) = str_eq e.agent_id agent
  by_agent agent (tool_call e) = is_agent e.agent_id agent
  by_agent agent (tool_result e) = is_agent e.agent_id agent
  by_agent agent (agent_turn e) = str_eq e.agent_id agent
  by_agent agent e = false

  unfoldable pub is_turn : RunEvent F → Bool
  is_turn (agent_turn e) = true
  is_turn e = false

  -- The events with their indices.
  numbered : ℕ → List (RunEvent F) → List (ℕ × RunEvent F)
  numbered i [] = []
  numbered i (e ∷ es) = (i, e) ∷ numbered (suc i) es

-- A filter that is applied only if it is given.
refine : {A X : Type 0} → Option X → (X → A → Bool) → List A → List A
refine none p xs = xs
refine (some x) p xs = filter (p x) xs

has : ℕ → List ℕ → Bool
has j [] = false
has j (i ∷ is) = j == i || has j is

module _ {F : Type 0} ⦃js : Js F⦄ where
  at_least : Option F → F → Bool
  at_least none x = true
  at_least (some m) x = js.le m x

  at_most : Option F → F → Bool
  at_most none x = true
  at_most (some m) x = js.le x m

  unfoldable pub in_range : Range F → F → Bool
  unfolding at_least at_most
  in_range r x = at_least r.min x && at_most r.max x

  unfoldable pub within_cost : Range F → RunEvent F → Bool
  within_cost r (agent_turn e) = in_range r e.cost.usd
  within_cost r (broadcast e) = in_range r e.cost.usd
  within_cost r e = false

  -- The indices of the turns in range, where `before` turns come before the first of the list.
  turns_in_range : Range F → ℕ → List (ℕ × RunEvent F) → List ℕ
  turns_in_range r before [] = []
  turns_in_range r before ((i, e) ∷ turns) =
      let rest = turns_in_range r (suc before) turns in
      if in_range r (js.of_nat (suc before)) then i ∷ rest else rest

  refine_turns : List (ℕ × RunEvent F) → Range F → ℕ × RunEvent F → Bool
  unfolding turns_in_range has
  refine_turns all r x = is_turn x.1 && has x.0 (turns_in_range r 0 (filter (λ y. is_turn y.1) all))

  unfoldable pub query_events : List (RunEvent F) → EventQueryFilter F → List (RunEvent F)
  unfolding numbered refine refine_turns
  query_events events f =
      let all = numbered 0 events in
      let typed = refine f.event_type (λ t x. same_type (type_of x.1) t) all in
      let own = refine f.agent_id (λ a x. by_agent a x.1) typed in
      let turns = refine f.turn_range (refine_turns all) own in
      map (λ x. x.1) (refine f.cost_range (λ r x. within_cost r x.1) turns)
