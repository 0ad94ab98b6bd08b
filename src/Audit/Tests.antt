-- ===== src/Audit/Tests.antt =====
-- Conditions on audit records at concrete runs.
use dogpile.Base.{List, [], ◌∷◌, ℕ, min, str_eq, true, length, ◌≡◌}
use dogpile.Data.Trace.{RunEvent}
use dogpile.Samples.{whole_js, turn_event, role_event, trace_with}
use dogpile.Audit.{create_audit_record}
use dogpile.Audit.Agents.{counted, records, turns_by, trace_turns, create_audit_record-agents}

abbrev two_agents : List (RunEvent ℕ)
two_agents =
    role_event "a" ∷ turn_event "a" "x" 1 ∷ turn_event "b" "y" 2 ∷ turn_event "a" "z" 3 ∷ []

create_audit_record_example :
    let t = trace_with two_agents in
    let r = create_audit_record t in
    (counted (λ a. str_eq a "a") r.agents ≡ turns_by (λ a. str_eq a "a") (trace_turns t))
    × (records "b" r.agents ≡ min 1 (turns_by (λ a. str_eq a "b") (trace_turns t)))
    × (r.turn_count ≡ counted (λ a. true) r.agents)
    × (r.agent_count ≡ length r.agents)
create_audit_record_example =
    create_audit_record-agents (trace_with two_agents) (λ a. str_eq a "a") "b"
