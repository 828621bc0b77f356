-- ===== src/Readiness/Counts.antt =====
-- What holds between the counters and the errors, after any events.
use Prim.Native.String.{String}
use text.Mathlib.Text.{◌==◌ as str_eq}
use uurc_web_new.Prelude.{
  ℕ, suc, ◌+◌, ◌≡◌, ◌↔◌, refl, ◌||◌, Option, none, some, List, [], ◌∷◌, arith, Bool-cases, inl, inr,
}
use uurc_web_new.Json.{JsNumber, is_code}
use uurc_web_new.EventLog.{Direction, inbound, outbound}
use uurc_web_new.Readiness.Payload.{
  TextOps, SoacType, offer, answer, candidate, restart_ice, find_control_result, soac_types,
}
use uurc_web_new.Readiness.{
  TerminalReason, server_kick, publisher_disconnected, count_leave, count_released, Analysis,
  ReadinessCounts, no_analysis, RemoteEvent, is_inbound, count_type, count_types,
  count_be_controlled, count_push, step_control, step_ack, step_soac, step_terminal, step_inbound,
  analyze_event, analyze_events,
}

-- Each acknowledgement is a success or a failure, a failure leaves its error, and a session's end
-- leaves its signal.
pub record IsConsistent (a : Analysis) : Type 0 where
  pub acks :
      a.counts.inbound_control_ack
      ≡ a.counts.inbound_control_ack_success + a.counts.inbound_control_ack_failure
  pub be_controlled :
      a.counts.inbound_be_controlled
      ≡ a.counts.inbound_be_controlled_success + a.counts.inbound_be_controlled_failure
  pub ack_error : (a.control_ack_error ≡ none) ↔ (a.counts.inbound_control_ack_failure ≡ 0)
  pub be_controlled_error :
      (a.be_controlled_error ≡ none) ↔ (a.counts.inbound_be_controlled_failure ≡ 0)
  pub terminal :
      (a.terminal_signal ≡ none) ↔ (a.counts.inbound_leave + a.counts.inbound_released ≡ 0)

-- The counters that the types of a payload leave alone.
pub count_types-others :
    (direction : Direction) (types : List SoacType) (c : ReadinessCounts)
    → count_types direction types c ≡ record c {
      outbound_offer = (count_types direction types c).outbound_offer;
      outbound_candidate = (count_types direction types c).outbound_candidate;
      inbound_answer = (count_types direction types c).inbound_answer;
      inbound_restart_ice = (count_types direction types c).inbound_restart_ice;
      inbound_candidate = (count_types direction types c).inbound_candidate;
    }
unfolding count_types count_type
count_types-others direction [] c = refl
count_types-others inbound (offer ∷ types) c = count_types-others inbound types c
count_types-others inbound (answer ∷ types) c =
    count_types-others inbound types (record c { inbound_answer = suc c.inbound_answer })
count_types-others inbound (candidate ∷ types) c =
    count_types-others inbound types (record c { inbound_candidate = suc c.inbound_candidate })
count_types-others inbound (restart_ice ∷ types) c =
    count_types-others inbound types (record c { inbound_restart_ice = suc c.inbound_restart_ice })
count_types-others outbound (offer ∷ types) c =
    count_types-others outbound types (record c { outbound_offer = suc c.outbound_offer })
count_types-others outbound (answer ∷ types) c = count_types-others outbound types c
count_types-others outbound (candidate ∷ types) c =
    count_types-others outbound types (record c { outbound_candidate = suc c.outbound_candidate })
count_types-others outbound (restart_ice ∷ types) c = count_types-others outbound types c

step_control-IsConsistent :
    (e : RemoteEvent) (a : Analysis) → IsConsistent a → IsConsistent (step_control e a)
unfolding step_control
step_control-IsConsistent e a c = ground arith

step_ack-IsConsistent :
    (e : RemoteEvent) (a : Analysis) → IsConsistent a → IsConsistent (step_ack e a)
unfolding step_ack
step_ack-IsConsistent e a c = ground arith

push-IsConsistent :
    (e : RemoteEvent) (a : Analysis) → IsConsistent a → IsConsistent (count_push e a)
push-IsConsistent e a c = elim (Bool-cases (str_eq e.event "bmsg_push")) [
  | inl y ↦ rw y (record {
    acks = c.acks;
    be_controlled = c.be_controlled;
    ack_error = c.ack_error;
    be_controlled_error = c.be_controlled_error;
    terminal = c.terminal;
  })
  | inr n ↦ rw n c
]

be_controlled-IsConsistent :
    (o : Option (JsNumber × Option String)) (at : ℕ) (a : Analysis)
    → IsConsistent a
    → IsConsistent (count_be_controlled o at a)
be_controlled-IsConsistent none at a c = ground arith
be_controlled-IsConsistent (some (code, message)) at a c = elim (Bool-cases (is_code 0 code)) [
  | inl y ↦ rw y (ground arith)
  | inr n ↦ rw n (ground arith)
]

module _ (ops : TextOps) where
  step_soac-IsConsistent :
      (e : RemoteEvent) (a : Analysis) → IsConsistent a → IsConsistent (step_soac ops e a)
  unfolding step_soac
  step_soac-IsConsistent e a c = elim (Bool-cases (str_eq e.event "soac")) [
    | inl y ↦ rw y (
        rw (count_types-others e.direction (soac_types e.payload) a.counts) (record {
          acks = c.acks;
          be_controlled = c.be_controlled;
          ack_error = c.ack_error;
          be_controlled_error = c.be_controlled_error;
          terminal = c.terminal;
        }))
    | inr n ↦ rw n c
  ]

  leave-IsConsistent :
      (reason : TerminalReason) (e : RemoteEvent) (a : Analysis)
      → IsConsistent a
      → IsConsistent (count_leave ops reason e a)
  leave-IsConsistent reason e a c = record {
    acks = c.acks;
    be_controlled = c.be_controlled;
    ack_error = c.ack_error;
    be_controlled_error = c.be_controlled_error;
    terminal = ground arith;
  }

  released-IsConsistent :
      (e : RemoteEvent) (a : Analysis) → IsConsistent a → IsConsistent (count_released ops e a)
  released-IsConsistent e a c = record {
    acks = c.acks;
    be_controlled = c.be_controlled;
    ack_error = c.ack_error;
    be_controlled_error = c.be_controlled_error;
    terminal = ground arith;
  }

  step_terminal-IsConsistent :
      (e : RemoteEvent) (a : Analysis) → IsConsistent a → IsConsistent (step_terminal ops e a)
  unfolding step_terminal
  step_terminal-IsConsistent e a c =
      elim (Bool-cases (str_eq e.event "leave" || str_eq e.event "left")) [
        | inl y ↦ rw y (leave-IsConsistent server_kick e a c)
        | inr n ↦ rw n (elim (Bool-cases (str_eq e.event "publisher_disconnect")) [
          | inl y ↦ rw y (leave-IsConsistent publisher_disconnected e a c)
          | inr n ↦ rw n (elim (Bool-cases (str_eq e.event "released")) [
            | inl y ↦ rw y (released-IsConsistent e a c)
            | inr n ↦ rw n (elim (Bool-cases (str_eq e.event "be-controlled")) [
              | inl y ↦
                  rw y (
                    be_controlled-IsConsistent (find_control_result ops e.payload) e.received_at a
                      c)
              | inr n ↦ rw n c
            ])
          ])
        ])
      ]

  step_inbound-IsConsistent :
      (e : RemoteEvent) (a : Analysis) → IsConsistent a → IsConsistent (step_inbound ops e a)
  unfolding step_inbound
  step_inbound-IsConsistent e a c = elim (Bool-cases (is_inbound e.direction)) [
    | inl y ↦ rw y (step_terminal-IsConsistent e (count_push e a) (push-IsConsistent e a c))
    | inr n ↦ rw n c
  ]

  analyze_events-IsConsistent_of :
      (events : List RemoteEvent) (a : Analysis)
      → IsConsistent a
      → IsConsistent (analyze_events ops a events)
  unfolding analyze_events analyze_event
  analyze_events-IsConsistent_of [] a c = c
  analyze_events-IsConsistent_of (e ∷ es) a c =
      analyze_events-IsConsistent_of es (analyze_event ops a e) (
        step_inbound-IsConsistent e _ (
          step_soac-IsConsistent e _ (step_ack-IsConsistent e _ (step_control-IsConsistent e a c))))

  -- After any events, in the analysis from an empty one: the acknowledgements are the successful
  -- and the failed ones together, and so are the `be-controlled` results; an error of either is
  -- kept exactly when one failed, and a terminal signal exactly when one was counted.
  pub analyze_events-IsConsistent :
      (events : List RemoteEvent) → IsConsistent (analyze_events ops no_analysis events)
  analyze_events-IsConsistent events =
      analyze_events-IsConsistent_of events no_analysis (ground arith)
