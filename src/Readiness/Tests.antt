-- ===== src/Readiness/Tests.antt =====
-- A session that is acknowledged, sends an offer and gets an answer, and how its diagnosis grows.
use Prim.Native.String.{String}
use uurc_web_new.Prelude.{
  ◌≤◌, ◌≡◌, ◌↔◌, ◌⊎◌, inl, inr, refl, Any, Option, none, some, List, [], ◌∷◌, ◌++◌,
}
use uurc_web_new.Json.{Json, str, num, whole, obj, field, end, arr, nil, cons}
use uurc_web_new.Prelude.Int.{pos}
use uurc_web_new.Ack.{control_failure, normalize_ack, control_result}
use uurc_web_new.EventLog.{inbound, outbound, Direction}
use uurc_web_new.Readiness.Payload.{TextOps, soac_types, offer, answer, restart_ice}
use uurc_web_new.Readiness.{
  RemoteEvent, GatewayStatus, state_connected, no_analysis, analyze_events, analyze_readiness,
  analyze_event, step_control, step_ack, step_soac, step_inbound, step_terminal, count_types,
  count_type, resolve_stage, stage_input, answer_received, controlled_left_before_answer,
}
use uurc_web_new.Readiness.Counts.{IsConsistent, analyze_events-IsConsistent}
use uurc_web_new.Readiness.Counted.{Acknowledges, Carried}
use uurc_web_new.Readiness.Stage.{analyze_readiness-ready_iff}
use uurc_web_new.Readiness.Progress.{rank, analyze_readiness-progress}

abbrev plain : TextOps
plain = record { trim = λ s. s; unit_length = λ s. 1; cut = λ n s. s; join = λ s t. s }

abbrev event_of : Direction → String → Json → RemoteEvent
event_of direction event payload = record {
  id = 1;
  direction = direction;
  event = event;
  received_at = 5;
  payload = payload;
}

abbrev data_of : String → Json
data_of type = obj (field "data" (obj (field "type" (str type) end)) end)

abbrev offered : List RemoteEvent
offered =
    event_of outbound "control" (obj end)
    ∷ event_of inbound "control:ack"
        (arr (cons (str "success") (cons (obj (field "code" (num (whole (pos 0))) end)) nil)))
    ∷ event_of outbound "soac" (data_of "offer")
    ∷ []

abbrev answered : List RemoteEvent
answered = event_of inbound "soac" (data_of "answer") ∷ []

abbrev left : List RemoteEvent
left = event_of inbound "leave" (obj end) ∷ []

abbrev connected : Option GatewayStatus
connected = some (record {
  status = state_connected;
  error = none;
  selected_signal_server = none;
  updated_at = 4;
})

answered_stage : (analyze_readiness plain (offered ++ answered) connected).stage ≡ answer_received
unfolding analyze_readiness analyze_events analyze_event step_control step_ack step_soac
    step_inbound step_terminal count_types count_type resolve_stage stage_input soac_types
    control_failure normalize_ack control_result
answered_stage = refl

left_blocker :
    (analyze_readiness plain (offered ++ left) connected).blocker
    ≡ some controlled_left_before_answer
unfolding analyze_readiness analyze_events analyze_event step_control step_ack step_soac
    step_inbound step_terminal count_types count_type resolve_stage stage_input soac_types
    control_failure normalize_ack control_result
left_blocker = refl

analyze_events-IsConsistent_example :
    IsConsistent (analyze_events plain no_analysis (offered ++ answered))
analyze_events-IsConsistent_example = analyze_events-IsConsistent plain (offered ++ answered)

analyze_readiness-progress_example :
    rank (analyze_readiness plain offered connected).stage
    ≤ rank (analyze_readiness plain (left ++ offered) connected).stage
analyze_readiness-progress_example =
    analyze_readiness-progress plain offered (left ++ offered) connected
      (inr (inl refl), (inr (inr (inl refl)), (inr (inr (inr (inl refl))), tt)))

analyze_readiness-ready_iff_example :
    ((analyze_readiness plain (offered ++ answered) connected).blocker ≡ none) ↔ (
      Any Acknowledges (offered ++ answered)
      × Any (Carried outbound offer) (offered ++ answered)
      × (Any (Carried inbound answer) (offered ++ answered)
          ⊎ Any (Carried inbound restart_ice) (offered ++ answered)))
analyze_readiness-ready_iff_example =
    analyze_readiness-ready_iff plain (offered ++ answered) connected
