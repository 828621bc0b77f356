-- ===== src/Readiness/Counted.antt =====
-- Which events the counters of the analysis stand for.
use Prim.Native.String.{String}
use text.Mathlib.Text.{◌==◌ as str_eq}
use text.Mathlib.TextEquality.{eq_iff}
use uurc_web_new.Prelude.{
  ℕ, ◌<◌, ◌≡◌, ◌↔◌, ◌⊎◌, inl, inr, refl, ap, true, Option, none, some, List, [], ◌∷◌, arith,
  Bool-cases, Any,
}
use uurc_web_new.Json.{JsNumber}
use uurc_web_new.EventLog.{Direction, inbound, outbound}
use uurc_web_new.Ack.{control_failure, normalize_ack}
use uurc_web_new.Ack.Refused.{IsRefusal, IsBad, control_failure-normalize_ack_iff}
use uurc_web_new.Readiness.Payload.{
  TextOps, SoacType, offer, answer, restart_ice, find_control_result, soac_types,
}
use uurc_web_new.Readiness.Carried.{Carries, Lists, soac_types-Carries_iff}
use uurc_web_new.Readiness.Counts.{count_types-others}
use uurc_web_new.Readiness.{
  RemoteEvent, Analysis, ReadinessCounts, is_inbound, no_analysis, analyze_events, analyze_event,
  count_type, count_types, count_be_controlled, count_push, step_control, step_ack, step_soac,
  step_terminal, step_inbound,
}

-- The event brings an acknowledgement of a control request that is no failure.
abbrev pub Acknowledges : RemoteEvent → Type 0
Acknowledges e =
    (e.direction ≡ inbound)
    × (e.event ≡ "control:ack")
    × (¬ (IsRefusal e.payload))
    × (¬ (IsBad e.payload))

-- The event goes in the direction and carries a message of the type.
abbrev pub Carried : Direction → SoacType → RemoteEvent → Type 0
Carried way t e = (e.direction ≡ way) × (e.event ≡ "soac") × Carries t e.payload

-- The counters that the stage goes by.
abbrev SameTypes : ReadinessCounts → ReadinessCounts → Type 0
SameTypes c d =
    (c.outbound_offer ≡ d.outbound_offer)
    × (c.inbound_answer ≡ d.inbound_answer)
    × (c.inbound_restart_ice ≡ d.inbound_restart_ice)

abbrev Same : ReadinessCounts → ReadinessCounts → Type 0
Same c d = (c.inbound_control_ack_success ≡ d.inbound_control_ack_success) × SameTypes c d

step_control-Same : (e : RemoteEvent) (a : Analysis) → Same (step_control e a).counts a.counts
unfolding step_control
step_control-Same e a = ground arith

step_ack-SameTypes : (e : RemoteEvent) (a : Analysis) → SameTypes (step_ack e a).counts a.counts
unfolding step_ack
step_ack-SameTypes e a = ground arith

ack_test_iff :
    (e : RemoteEvent)
    → Acknowledges e ↔ (
        (is_inbound e.direction ≡ true)
        × (str_eq e.event "control:ack" ≡ true)
        × (control_failure (normalize_ack e.payload) ≡ none))
ack_test_iff e =
    ground (arith, eq_iff e.event "control:ack", control_failure-normalize_ack_iff e.payload)

step_ack_iff :
    (e : RemoteEvent) (a : Analysis)
    → (0 < (step_ack e a).counts.inbound_control_ack_success)
      ↔ ((0 < a.counts.inbound_control_ack_success) ⊎ Acknowledges e)
unfolding step_ack
step_ack_iff e a = ground (arith, ack_test_iff e)

module _ (ops : TextOps) where
  step_soac-acks :
      (e : RemoteEvent) (a : Analysis)
      → (step_soac ops e a).counts.inbound_control_ack_success
        ≡ a.counts.inbound_control_ack_success
  unfolding step_soac
  step_soac-acks e a = elim (Bool-cases (str_eq e.event "soac")) [
    | inl y ↦ rw y (
        ap (λ c. c.inbound_control_ack_success)
          (count_types-others e.direction (soac_types e.payload) a.counts))
    | inr n ↦ rw n refl
  ]

  be_controlled-Same :
      (o : Option (JsNumber × Option String)) (at : ℕ) (a : Analysis)
      → Same (count_be_controlled o at a).counts a.counts
  be_controlled-Same none at a = omega arith
  be_controlled-Same (some (code, message)) at a = ground arith

  step_terminal-Same :
      (e : RemoteEvent) (a : Analysis) → Same (step_terminal ops e a).counts a.counts
  unfolding step_terminal
  step_terminal-Same e a =
      ground (arith, be_controlled-Same (find_control_result ops e.payload) e.received_at a)

  push-Same : (e : RemoteEvent) (a : Analysis) → Same (count_push e a).counts a.counts
  push-Same e a = ground arith

  step_inbound-Same : (e : RemoteEvent) (a : Analysis) → Same (step_inbound ops e a).counts a.counts
  unfolding step_inbound
  step_inbound-Same e a = elim (Bool-cases (is_inbound e.direction)) [
    | inl y ↦ rw y (omega (arith, push-Same e a, step_terminal-Same e (count_push e a)))
    | inr n ↦ rw n (omega arith)
  ]

  analyze_event-acks_iff :
      (e : RemoteEvent) (a : Analysis)
      → (0 < (analyze_event ops a e).counts.inbound_control_ack_success)
        ↔ ((0 < a.counts.inbound_control_ack_success) ⊎ Acknowledges e)
  unfolding analyze_event
  analyze_event-acks_iff e a = ground (
    arith,
    step_control-Same e a,
    step_ack_iff e (step_control e a),
    step_soac-acks e (step_ack e (step_control e a)),
    step_inbound-Same e (step_soac ops e (step_ack e (step_control e a))),
  )

  -- A counter that each event raises or leaves, over all events.
  events_iff :
      (read : ReadinessCounts → ℕ) (P : RemoteEvent → Type 0)
      → ((e : RemoteEvent) (a : Analysis)
          → (0 < read (analyze_event ops a e).counts) ↔ ((0 < read a.counts) ⊎ P e))
      → (es : List RemoteEvent) (a : Analysis)
      → (0 < read (analyze_events ops a es).counts) ↔ ((0 < read a.counts) ⊎ Any P es)
  unfolding analyze_events
  events_iff read P one [] a = ground arith
  events_iff read P one (e ∷ es) a =
      ground (arith, one e a, events_iff read P one es (analyze_event ops a e))

  -- Counting the types of a payload, for a counter of one type in one direction.
  module _ (read : ReadinessCounts → ℕ) (way : Direction) (t : SoacType)
      (same : (c d : ReadinessCounts) → SameTypes c d → read c ≡ read d)
      (one : (d : Direction) (u : SoacType) (c : ReadinessCounts)
        → (0 < read (count_type d c u)) ↔ ((0 < read c) ⊎ ((d ≡ way) × (u ≡ t)))) where
    types_iff :
        (d : Direction) (types : List SoacType) (c : ReadinessCounts)
        → (0 < read (count_types d types c)) ↔ ((0 < read c) ⊎ ((d ≡ way) × Lists t types))
    unfolding count_types
    types_iff d [] c = ground arith
    types_iff d (u ∷ us) c = ground (arith, one d u c, types_iff d us (count_type d c u))

    soac_iff :
        (e : RemoteEvent) (a : Analysis)
        → (0 < read (step_soac ops e a).counts) ↔ ((0 < read a.counts) ⊎ Carried way t e)
    unfolding step_soac
    soac_iff e a = elim (Bool-cases (str_eq e.event "soac")) [
      | inl y ↦ rw y (
          ground (
            arith,
            eq_iff e.event "soac",
            types_iff e.direction (soac_types e.payload) a.counts,
            soac_types-Carries_iff t e.payload,
          ))
      | inr n ↦ rw n (ground (arith, eq_iff e.event "soac"))
    ]

    analyze_event-types_iff :
        (e : RemoteEvent) (a : Analysis)
        → (0 < read (analyze_event ops a e).counts) ↔ ((0 < read a.counts) ⊎ Carried way t e)
    unfolding analyze_event
    analyze_event-types_iff e a =
        let a1 = step_control e a in
        let a2 = step_ack e a1 in
        let a3 = step_soac ops e a2 in
        ground (
          arith,
          same a1.counts a.counts (omega (arith, step_control-Same e a)),
          same a2.counts a1.counts (step_ack-SameTypes e a1),
          soac_iff e a2,
          same (step_inbound ops e a3).counts a3.counts (omega (arith, step_inbound-Same e a3)),
        )

  offers_iff :
      (d : Direction) (u : SoacType) (c : ReadinessCounts)
      → (0 < (count_type d c u).outbound_offer)
        ↔ ((0 < c.outbound_offer) ⊎ ((d ≡ outbound) × (u ≡ offer)))
  unfolding count_type
  offers_iff d u c = ground arith

  answers_iff :
      (d : Direction) (u : SoacType) (c : ReadinessCounts)
      → (0 < (count_type d c u).inbound_answer)
        ↔ ((0 < c.inbound_answer) ⊎ ((d ≡ inbound) × (u ≡ answer)))
  unfolding count_type
  answers_iff d u c = ground arith

  restarts_iff :
      (d : Direction) (u : SoacType) (c : ReadinessCounts)
      → (0 < (count_type d c u).inbound_restart_ice)
        ↔ ((0 < c.inbound_restart_ice) ⊎ ((d ≡ inbound) × (u ≡ restart_ice)))
  unfolding count_type
  restarts_iff d u c = ground arith

  pub acks-events_iff :
      (events : List RemoteEvent)
      → (0 < (analyze_events ops no_analysis events).counts.inbound_control_ack_success)
        ↔ Any Acknowledges events
  acks-events_iff events = ground (
    arith,
    events_iff (λ c. c.inbound_control_ack_success) Acknowledges analyze_event-acks_iff events
        no_analysis,
  )

  pub offers-events_iff :
      (events : List RemoteEvent)
      → (0 < (analyze_events ops no_analysis events).counts.outbound_offer)
        ↔ Any (Carried outbound offer) events
  offers-events_iff events = ground (
    arith,
    events_iff (λ c. c.outbound_offer) (Carried outbound offer)
        (analyze_event-types_iff (λ c. c.outbound_offer) outbound offer (λ c d s. s.0) offers_iff)
        events no_analysis,
  )

  pub answers-events_iff :
      (events : List RemoteEvent)
      → (0 < (analyze_events ops no_analysis events).counts.inbound_answer)
        ↔ Any (Carried inbound answer) events
  answers-events_iff events = ground (
    arith,
    events_iff (λ c. c.inbound_answer) (Carried inbound answer)
        (analyze_event-types_iff (λ c. c.inbound_answer) inbound answer (λ c d s. s.1) answers_iff)
        events no_analysis,
  )

  pub restarts-events_iff :
      (events : List RemoteEvent)
      → (0 < (analyze_events ops no_analysis events).counts.inbound_restart_ice)
        ↔ Any (Carried inbound restart_ice) events
  restarts-events_iff events = ground (
    arith,
    events_iff (λ c. c.inbound_restart_ice) (Carried inbound restart_ice)
        (analyze_event-types_iff (λ c. c.inbound_restart_ice) inbound restart_ice (λ c d s. s.2)
          restarts_iff)
        events no_analysis,
  )
