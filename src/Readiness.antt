-- ===== src/Readiness.antt =====
-- shared/src/streamer/readiness.ts: how far a signalling session has come, from its events. What the
-- functions find in a payload is in Readiness/Payload.
pub mod Model
pub mod Payload
pub mod Carried
pub mod Counted
pub mod Stage
pub mod Counts
pub mod Progress
pub mod Tests
pub use Model.*
use Prim.Native.String.{String}
use text.Mathlib.Text.{◌==◌ as str_eq}
use uurc_web_new.Prelude.{
  ℕ, suc, ◌+◌, Bool, true, false, ◌&&◌, ◌||◌, Option, none, some, List, [], ◌∷◌, last?, ltb,
  if◌then◌else◌,
}
use uurc_web_new.Prelude.Options.{is_defined}
use uurc_web_new.Json.{JsNumber, Json, is_code}
use uurc_web_new.Ack.{ControlFailure, normalize_ack, control_failure, protocol_error_of}
use uurc_web_new.EventLog.{Direction, inbound, outbound, SignalEvent}
use uurc_web_new.Readiness.Payload.{
  TextOps, SoacType, offer, answer, candidate, restart_ice, find_control_result, soac_types,
  last_soac_ice_id, signal_ice_id, signal_trace_id,
}

abbrev pub RemoteEvent : Type 0
RemoteEvent = SignalEvent Json

abbrev pub is_inbound : Direction → Bool
is_inbound inbound = true
is_inbound outbound = false

-- The body of the loop over the types of a payload.
unfoldable pub count_type : Direction → ReadinessCounts → SoacType → ReadinessCounts
count_type outbound counts offer = record counts { outbound_offer = suc counts.outbound_offer }
count_type outbound counts candidate = record counts {
  outbound_candidate = suc counts.outbound_candidate;
}
count_type outbound counts _ = counts
count_type inbound counts answer = record counts { inbound_answer = suc counts.inbound_answer }
count_type inbound counts restart_ice = record counts {
  inbound_restart_ice = suc counts.inbound_restart_ice;
}
count_type inbound counts candidate = record counts {
  inbound_candidate = suc counts.inbound_candidate;
}
count_type inbound counts offer = counts

unfoldable pub count_types : Direction → List SoacType → ReadinessCounts → ReadinessCounts
count_types direction [] counts = counts
count_types direction (type ∷ types) counts =
    count_types direction types (count_type direction counts type)

abbrev pub or_string : Option String → Option String → Option String
or_string none b = b
or_string (some a) b = some a

abbrev pub ids_match : Option String → Option String → Option Bool
ids_match none last = none
ids_match (some ice_id) none = none
ids_match (some ice_id) (some last) = some (str_eq ice_id last)

unfoldable pub step_control : RemoteEvent → Analysis → Analysis
step_control event a =
    if str_eq event.event "control"
    then elim event.direction [
      | outbound ↦ record a {
        counts = record (a.counts) { outbound_control = suc a.counts.outbound_control };
      }
      | inbound ↦ a
    ]
    else a

abbrev pub count_ack : Option ControlFailure → ℕ → Analysis → Analysis
count_ack none received_at a = record a {
  counts = record (a.counts) {
    inbound_control_ack = suc a.counts.inbound_control_ack;
    inbound_control_ack_success = suc a.counts.inbound_control_ack_success;
  };
}
count_ack (some failure) received_at a = record a {
  counts = record (a.counts) {
    inbound_control_ack = suc a.counts.inbound_control_ack;
    inbound_control_ack_failure = suc a.counts.inbound_control_ack_failure;
  };
  control_ack_error = some (record { failure = failure; received_at = received_at });
}

unfoldable pub step_ack : RemoteEvent → Analysis → Analysis
step_ack event a =
    if is_inbound event.direction && str_eq event.event "control:ack"
    then count_ack (control_failure (normalize_ack event.payload)) event.received_at a
    else a

-- `code === undefined || code === 0`
abbrev pub count_be_controlled : Option (JsNumber × Option String) → ℕ → Analysis → Analysis
count_be_controlled none received_at a = record a {
  counts = record (a.counts) {
    inbound_be_controlled = suc a.counts.inbound_be_controlled;
    inbound_be_controlled_success = suc a.counts.inbound_be_controlled_success;
  };
}
count_be_controlled (some (code, message)) received_at a =
    if is_code 0 code
    then record a {
      counts = record (a.counts) {
        inbound_be_controlled = suc a.counts.inbound_be_controlled;
        inbound_be_controlled_success = suc a.counts.inbound_be_controlled_success;
      };
    }
    else record a {
      counts = record (a.counts) {
        inbound_be_controlled = suc a.counts.inbound_be_controlled;
        inbound_be_controlled_failure = suc a.counts.inbound_be_controlled_failure;
      };
      be_controlled_error = some (record {
        code = code;
        message = message;
        protocol_error = protocol_error_of code;
        received_at = received_at;
      });
    }

abbrev pub count_push : RemoteEvent → Analysis → Analysis
count_push event a =
    if str_eq event.event "bmsg_push"
    then record a {
      counts = record (a.counts) { inbound_bmsg_push = suc a.counts.inbound_bmsg_push };
    }
    else a

module _ (ops : TextOps) where
  unfoldable pub step_soac : RemoteEvent → Analysis → Analysis
  step_soac event a =
      if str_eq event.event "soac"
      then record a {
        counts = count_types event.direction (soac_types event.payload) a.counts;
        last_offer_ice_id =
            if is_inbound event.direction
            then a.last_offer_ice_id
            else or_string (last_soac_ice_id ops offer event.payload) a.last_offer_ice_id;
      }
      else a

  abbrev pub terminal : TerminalReason → RemoteEvent → Option String → TerminalSignal
  terminal reason event last = record {
    event = event.event;
    reason = reason;
    received_at = event.received_at;
    trace_id = signal_trace_id ops event.payload;
    ice_id_present = is_defined (signal_ice_id ops event.payload);
    ice_id_matches_last_offer = ids_match (signal_ice_id ops event.payload) last;
  }

  abbrev pub count_leave : TerminalReason → RemoteEvent → Analysis → Analysis
  count_leave reason event a = record a {
    counts = record (a.counts) { inbound_leave = suc a.counts.inbound_leave };
    terminal_signal = some (terminal reason event a.last_offer_ice_id);
  }

  abbrev pub count_released : RemoteEvent → Analysis → Analysis
  count_released event a = record a {
    counts = record (a.counts) { inbound_released = suc a.counts.inbound_released };
    terminal_signal = some (terminal released event a.last_offer_ice_id);
  }

  unfoldable pub step_terminal : RemoteEvent → Analysis → Analysis
  step_terminal event a =
      if str_eq event.event "leave" || str_eq event.event "left"
      then count_leave server_kick event a
      else (if str_eq event.event "publisher_disconnect"
          then count_leave publisher_disconnected event a
          else (if str_eq event.event "released"
              then count_released event a
              else (if str_eq event.event "be-controlled"
                  then count_be_controlled (find_control_result ops event.payload) event.received_at
                      a
                  else a)))

  unfoldable pub step_inbound : RemoteEvent → Analysis → Analysis
  step_inbound event a =
      if is_inbound event.direction then step_terminal event (count_push event a) else a

  -- The body of the loop over the events.
  unfoldable pub analyze_event : Analysis → RemoteEvent → Analysis
  analyze_event a event =
      step_inbound event (step_soac event (step_ack event (step_control event a)))

  unfoldable pub analyze_events : Analysis → List RemoteEvent → Analysis
  analyze_events a [] = a
  analyze_events a (event ∷ events) = analyze_events (analyze_event a event) events

unfoldable pub resolve_stage : StageInput → ReadinessStage × Option Blocker
resolve_stage input =
    if input.signal_gateway_connected
    then (if input.control_ack_received
        then (if input.offer_was_sent
            then (if input.answer_was_received
                then (answer_received, none)
                else (if input.be_controlled_failure
                    then (offer_sent, some be_controlled_failed)
                    else (if input.terminal_signal_received
                        then (offer_sent, some controlled_left_before_answer)
                        else (offer_sent, some answer_missing))))
            else (control_acknowledged, some offer_missing))
        else (if input.control_ack_failure
            then (gateway_connected, some control_ack_failed)
            else (gateway_connected, some control_ack_missing)))
    else (idle, some gateway_not_connected)

abbrev pub no_events {ℓ} : {A : Type ℓ} → List A → Bool
no_events [] = true
no_events (x ∷ xs) = false

-- `connected` is `signalStatus?.status === "connected"`.
unfoldable pub stage_input : Bool → List RemoteEvent → ReadinessCounts → StageInput
stage_input connected events counts = record {
  signal_gateway_connected = connected || (if no_events events then false else true);
  control_ack_received = ltb 0 counts.inbound_control_ack_success;
  control_ack_failure = ltb 0 counts.inbound_control_ack_failure;
  offer_was_sent = ltb 0 counts.outbound_offer;
  be_controlled_received = ltb 0 counts.inbound_be_controlled_success;
  be_controlled_failure = ltb 0 counts.inbound_be_controlled_failure;
  answer_was_received = ltb 0 counts.inbound_answer || ltb 0 counts.inbound_restart_ice;
  terminal_signal_received = ltb 0 counts.inbound_leave || ltb 0 counts.inbound_released;
}

abbrev pub is_connected : Option GatewayStatus → Bool
is_connected none = false
is_connected (some s) = elim s.status [ state_connected ↦ true | _ ↦ false ]

abbrev pub status_or_idle : Option GatewayStatus → GatewayState
status_or_idle none = state_idle
status_or_idle (some s) = s.status

abbrev pub error_of : Option GatewayStatus → Option String
error_of none = none
error_of (some s) = s.error

abbrev pub server_of : Option GatewayStatus → Option String
server_of none = none
server_of (some s) = s.selected_signal_server

abbrev pub updated_of : Option GatewayStatus → Option ℕ
updated_of none = none
updated_of (some s) = some s.updated_at

abbrev pub received_of : Option RemoteEvent → Option ℕ
received_of none = none
received_of (some event) = some event.received_at

-- `analyzeRemoteSignalReadiness`. An option that is `none` is a field that is left out. `checks`
-- shows whether the gateway itself is connected.
unfoldable pub analyze_readiness : TextOps → List RemoteEvent → Option GatewayStatus → Diagnostics
analyze_readiness ops events status =
    let a = analyze_events ops no_analysis events in
    let input = stage_input (is_connected status) events a.counts in
    record {
      stage = (resolve_stage input).0;
      blocker = (resolve_stage input).1;
      gateway_status = status_or_idle status;
      gateway_error = error_of status;
      selected_signal_server = server_of status;
      updated_at = updated_of status;
      last_event_at = received_of (last? events);
      analysis = a;
      checks = record input { signal_gateway_connected = is_connected status };
    }
