-- ===== src/Readiness/Stage.antt =====
-- When a session is ready.
use uurc_web_new.Prelude.{
  ◌<◌, ◌≡◌, ◌≢◌, ◌↔◌, ◌⊎◌, Bool, true, Option, none, List, [], ◌∷◌, arith, Any, Any-nonempty,
}
use uurc_web_new.EventLog.{inbound, outbound}
use uurc_web_new.Readiness.Payload.{TextOps, offer, answer, restart_ice}
use uurc_web_new.Readiness.Counted.{
  Acknowledges, Carried, acks-events_iff, offers-events_iff, answers-events_iff,
  restarts-events_iff,
}
use uurc_web_new.Readiness.{
  RemoteEvent, ReadinessCounts, GatewayStatus, StageInput, answer_received, resolve_stage,
  stage_input, is_connected, no_analysis, analyze_events, analyze_readiness,
}

resolve_stage_ready :
    (i : StageInput)
    → ((resolve_stage i).1 ≡ none) ↔ (
        (i.signal_gateway_connected ≡ true)
        × (i.control_ack_received ≡ true)
        × (i.offer_was_sent ≡ true)
        × (i.answer_was_received ≡ true))
unfolding resolve_stage
resolve_stage_ready i = ground arith

pub resolve_stage-answered :
    (i : StageInput) → ((resolve_stage i).0 ≡ answer_received) ↔ ((resolve_stage i).1 ≡ none)
unfolding resolve_stage
resolve_stage-answered i = ground arith

stage_input_ready :
    (connected : Bool) (events : List RemoteEvent) (c : ReadinessCounts)
    → (((stage_input connected events c).signal_gateway_connected ≡ true)
        × ((stage_input connected events c).control_ack_received ≡ true)
        × ((stage_input connected events c).offer_was_sent ≡ true)
        × ((stage_input connected events c).answer_was_received ≡ true))
      ↔ (((connected ≡ true) ⊎ (events ≢ []))
          × (0 < c.inbound_control_ack_success)
          × (0 < c.outbound_offer)
          × ((0 < c.inbound_answer) ⊎ (0 < c.inbound_restart_ice)))
unfolding stage_input
stage_input_ready connected [] c = ground arith
stage_input_ready connected (e ∷ es) c = ground arith

-- A diagnosis has no blocker exactly when three kinds of events are among those analysed: an
-- inbound acknowledgement of a control request that is not, and does not begin with, a text other
-- than `success`, and that has no finite `code` other than 0 in its first object; an outbound
-- `soac` event whose payload carries an offer; and an inbound `soac` event whose payload carries
-- an answer or an ICE restart.
pub analyze_readiness-ready_iff :
    (ops : TextOps) (events : List RemoteEvent) (status : Option GatewayStatus)
    → ((analyze_readiness ops events status).blocker ≡ none) ↔ (
        Any Acknowledges events
        × Any (Carried outbound offer) events
        × (Any (Carried inbound answer) events ⊎ Any (Carried inbound restart_ice) events))
unfolding analyze_readiness
analyze_readiness-ready_iff ops events status =
    let counts = (analyze_events ops no_analysis events).counts in
    ground (
      arith,
      resolve_stage_ready (stage_input (is_connected status) events counts),
      stage_input_ready (is_connected status) events counts,
      Any-nonempty Acknowledges events,
      acks-events_iff ops events,
      offers-events_iff ops events,
      answers-events_iff ops events,
      restarts-events_iff ops events,
    )
