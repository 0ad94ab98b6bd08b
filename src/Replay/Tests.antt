-- ===== src/Replay/Tests.antt =====
-- Canonical values and protocol decisions on small inputs.
use Prim.Native.String.{String}
use dogpile.Base.{ℕ, suc, leb, ltb, Js, String, List, [], ◌∷◌, map, ◌≡◌, refl}
use dogpile.Data.Json.{Json, num, str, obj, end, field, null}
use dogpile.Data.Agent.{Protocol}
use dogpile.Data.Trace.{RunEvent}
use dogpile.Samples.{whole_js, turn_event, role_event}
use dogpile.Accounting.{event_timestamp, create_run_event_log}
use dogpile.Replay.{Stringify, create_replay_trace_protocol_decisions}
use dogpile.Replay.Decisions.{decided_type, indices, create_replay_trace_protocol_decisions_lem}
use dogpile.Replay.Canonical.{
  canonicalize_serializable, canonical_number, insert_field, enumerated_le, key_le, array_index,
  digits_from, index_in_range,
}

abbrev size : String → ℕ
size String.[] = 0
size (String.◌∷◌ c s) = suc (size s)

-- Texts in the order of their lengths, and numbers below 100 only.
abbrev size_js : Js ℕ
size_js = record whole_js { text_le = λ a b. leb (size a) (size b); is_finite = λ x. ltb x 100 }

abbrev shuffled : Json ℕ
shuffled = obj (
    field "ccc" (num 7)
      (field "a" (str "x") (field "bb" (num 100) (field "10" null (field "9" null end)))))

shuffled_sorts :
    canonicalize_serializable ⦃js = size_js⦄ shuffled
    ≡ obj (
        field "9" null
          (field "10" null (field "a" (str "x") (field "bb" null (field "ccc" (num 7) end)))))
unfolding canonicalize_serializable canonical_number insert_field enumerated_le key_le array_index
    digits_from index_in_range
shuffled_sorts = refl

abbrev plain : Stringify ℕ
plain = record { stringify = λ j. "json"; result_json = λ r. null }

abbrev events : List (RunEvent ℕ)
events = role_event "a" ∷ turn_event "a" "x" 2 ∷ []

create_replay_trace_protocol_decisions_example :
    (map
        (λ d. decided_type d.decision)
        (create_replay_trace_protocol_decisions plain Protocol.sequential events)
      ≡ (create_run_event_log "run" Protocol.sequential events).event_types)
    × (map
          (λ d. d.event_type)
          (create_replay_trace_protocol_decisions plain Protocol.sequential events)
        ≡ (create_run_event_log "run" Protocol.sequential events).event_types)
    × (map (λ d. d.at) (create_replay_trace_protocol_decisions plain Protocol.sequential events)
        ≡ map event_timestamp events)
    × (map
          (λ d. d.event_index)
          (create_replay_trace_protocol_decisions plain Protocol.sequential events)
        ≡ indices 0 events)
create_replay_trace_protocol_decisions_example =
    create_replay_trace_protocol_decisions_lem plain Protocol.sequential "run" events
