-- ===== src/Introspection/Tests.antt =====
-- Conditions on event queries at concrete runs.
use dogpile.Base.{ℕ, List, [], ◌∷◌, none, some, ◌≡◌, refl}
use dogpile.Data.Trace.{RunEvent}
use dogpile.Samples.{whole_js, turn_event, role_event}
use dogpile.Introspection.{
  EventQueryFilter, query_events, numbered, refine, refine_turns, has, turns_in_range, in_range,
  is_turn, by_agent, within_cost,
}
use dogpile.Introspection.Single.{one_pass, matches, query_events-one_pass}

abbrev log : List (RunEvent ℕ)
log =
    role_event "a"
    ∷ turn_event "a" "x" 1
    ∷ turn_event "b" "y" 2
    ∷ role_event "b"
    ∷ turn_event "a" "z" 3
    ∷ []

-- The later turns of one agent.
abbrev late : EventQueryFilter ℕ
late = record {
  event_type = none;
  agent_id = some "a";
  turn_range = some (record { min = some 2; max = none });
  cost_range = some (record { min = none; max = some 5 });
}

query_events_example : query_events log late ≡ one_pass (matches late) 0 log
query_events_example = query_events-one_pass log late

third_turn : query_events log late ≡ turn_event "a" "z" 3 ∷ []
unfolding query_events numbered refine refine_turns has turns_in_range in_range is_turn by_agent
    within_cost
third_turn = refl
