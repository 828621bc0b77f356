-- ===== src/Readiness/Progress.antt =====
-- Events that are added never lower the stage. The service also drops old events before it analyses
-- the rest (EventLog), and the stage may fall then: this is about lists that keep their events.
use uurc_web_new.Prelude.{
  ℕ, ◌<◌, ◌≤◌, ◌≡◌, ◌↔◌, inl, inr, refl, sym, subst, Bool, true, false, ◌||◌, Option, List, [], ◌∷◌,
  arith, ltb, if◌then◌else◌, All, Any,
}
use uurc_web_new.EventLog.{inbound, outbound}
use uurc_web_new.Readiness.Payload.{TextOps, offer, answer, restart_ice}
use uurc_web_new.Readiness.Counted.{
  Acknowledges, Carried, acks-events_iff, offers-events_iff, answers-events_iff,
  restarts-events_iff,
}
use uurc_web_new.Readiness.{
  RemoteEvent, GatewayStatus, StageInput, ReadinessStage, idle, gateway_connected,
  control_acknowledged, offer_sent, answer_received, resolve_stage, stage_input, is_connected,
  no_analysis, no_events, analyze_events, analyze_readiness,
}

abbrev pub rank : ReadinessStage → ℕ
rank idle = 0
rank gateway_connected = 1
rank control_acknowledged = 2
rank offer_sent = 3
rank answer_received = 4

-- The rank of the stage that the four checks leave.
abbrev level : Bool → Bool → Bool → Bool → ℕ
level false acked offered answered = 0
level true false offered answered = 1
level true true false answered = 2
level true true true false = 3
level true true true true = 4

level_mono :
    {a b c d a' b' c' d' : Bool}
    → (a ≡ true → a' ≡ true)
    → (b ≡ true → b' ≡ true)
    → (c ≡ true → c' ≡ true)
    → (d ≡ true → d' ≡ true)
    → level a b c d ≤ level a' b' c' d'
level_mono f g h k = ground arith

or_mono :
    {a b a' b' : Bool}
    → (a ≡ true → a' ≡ true)
    → (b ≡ true → b' ≡ true)
    → (a || b) ≡ true
    → (a' || b') ≡ true
or_mono f g t = ground arith

rank-resolve_stage :
    (i : StageInput)
    → rank (resolve_stage i).0
      ≡ level i.signal_gateway_connected i.control_ack_received i.offer_was_sent
          i.answer_was_received
unfolding resolve_stage
rank-resolve_stage i = ground arith

-- Each event of the first list is in the second.
abbrev pub Within : List RemoteEvent → List RemoteEvent → Type 0
Within es fs = All (λ e. Any (λ u. u ≡ e) fs) es

Any-at :
    (P : RemoteEvent → Type 0) (e : RemoteEvent) (fs : List RemoteEvent)
    → Any (λ u. u ≡ e) fs
    → P e
    → Any P fs
Any-at P e [] m p = elim m [ ]
Any-at P e (f ∷ fs) (inl path) p = inl (subst P (sym path) p)
Any-at P e (f ∷ fs) (inr m) p = inr (Any-at P e fs m p)

Any-Within :
    (P : RemoteEvent → Type 0) (es fs : List RemoteEvent) → Within es fs → Any P es → Any P fs
Any-Within P [] fs w m = elim m [ ]
Any-Within P (e ∷ es) fs w (inl p) = Any-at P e fs w.0 p
Any-Within P (e ∷ es) fs w (inr m) = Any-Within P es fs w.1 m

nonempty-Within :
    (connected : Bool) (es fs : List RemoteEvent)
    → Within es fs
    → (connected || (if no_events es then false else true)) ≡ true
    → (connected || (if no_events fs then false else true)) ≡ true
nonempty-Within true es fs w t = refl
nonempty-Within false [] fs w t = ground arith
nonempty-Within false (e ∷ es) [] w t = elim w.0 [ ]
nonempty-Within false (e ∷ es) (f ∷ fs) w t = refl

-- A counter that stands for events is positive in the second list if it is in the first.
counted-Within :
    (P : RemoteEvent → Type 0) (es fs : List RemoteEvent) {n m : ℕ}
    → Within es fs
    → (0 < n) ↔ Any P es
    → (0 < m) ↔ Any P fs
    → ltb 0 n ≡ true
    → ltb 0 m ≡ true
counted-Within P es fs w of_es of_fs t = ground (arith, t, Any-Within P es fs w, of_es, of_fs)

module _ (ops : TextOps) where
  -- With the same gateway status, the stage of a list of events is no further than that of any
  -- list in which each of these events occurs, in whatever order and with whatever others.
  pub analyze_readiness-progress :
      (es fs : List RemoteEvent) (status : Option GatewayStatus)
      → Within es fs
      → rank (analyze_readiness ops es status).stage ≤ rank (analyze_readiness ops fs status).stage
  unfolding analyze_readiness stage_input
  analyze_readiness-progress es fs status w =
      let c = (analyze_events ops no_analysis es).counts in
      let d = (analyze_events ops no_analysis fs).counts in
      rw (rank-resolve_stage (stage_input (is_connected status) es c)) (
        rw (rank-resolve_stage (stage_input (is_connected status) fs d)) (
          level_mono (nonempty-Within (is_connected status) es fs w)
            (counted-Within Acknowledges es fs w (acks-events_iff ops es) (acks-events_iff ops fs))
            (counted-Within (Carried outbound offer) es fs w (offers-events_iff ops es)
              (offers-events_iff ops fs))
            (or_mono
              (counted-Within (Carried inbound answer) es fs w (answers-events_iff ops es)
                (answers-events_iff ops fs))
              (counted-Within (Carried inbound restart_ice) es fs w (restarts-events_iff ops es)
                (restarts-events_iff ops fs)))))
