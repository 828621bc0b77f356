-- ===== src/EventLog.antt =====
-- The event log of a control service (backend/src/services/remoteControlService.ts): what
-- `recordSignalEvent` keeps, and what `getSignalGatewayEvents` returns. `size_of` is
-- `Buffer.byteLength(JSON.stringify(event))`. The payload is the one that the normalisation gave.
-- `Date.now()` is read once for a call's whole filter.
pub mod Kept
pub mod Tests
use Prim.Native.String.{String}
use uurc_web_new.Prelude.{
  ℕ, zero, suc, ◌+◌, ◌-◌, ◌*◌, Bool, Option, none, some, List, [], ◌∷◌, ◌++◌, length, get_elem?,
  drop, select, ltb, leb, if◌then◌else◌,
}

pub data Direction : Type 0 where
  inbound outbound : Direction

-- `RemoteSignalGatewayEvent`
pub record SignalEvent (P : Type 0) : Type 0 where
  pub id : ℕ
  pub direction : Direction
  pub event : String
  pub received_at : ℕ
  pub payload : P

-- `SIGNAL_GATEWAY_MAX_EVENTS`, `SIGNAL_MAX_EVENT_BYTES`, `SIGNAL_GATEWAY_EVENT_RETENTION_MS`
abbrev pub max_events : ℕ
max_events = 200

abbrev pub max_event_bytes : ℕ
max_event_bytes = 2 * 1024 * 1024

abbrev pub retention_ms : ℕ
retention_ms = 15 * 60 * 1000

-- `signalEvents` and `nextSignalEventId`.
pub record EventLog (P : Type 0) : Type 0 where
  pub events : List (SignalEvent P)
  pub next_id : ℕ

-- As the service and `startSignalGateway` set it.
abbrev pub empty_log : {P : Type 0} → EventLog P
empty_log = record { events = []; next_id = 1 }

-- `Date.parse(event.receivedAt) >= now - SIGNAL_GATEWAY_EVENT_RETENTION_MS`
abbrev pub is_recent : {P : Type 0} → ℕ → SignalEvent P → Bool
is_recent now event = leb now (event.received_at + retention_ms)

-- `list.slice(-count)`, of a positive count.
abbrev pub slice_last : {A : Type 0} → ℕ → List A → List A
slice_last count list = drop (length list - count) list

unfoldable pub prune_events : {P : Type 0} → ℕ → EventLog P → EventLog P
prune_events now log = record log { events = select (is_recent now) log.events }

unfoldable pub get_events : {P : Type 0} → ℕ → ℕ → EventLog P → EventLog P × List (SignalEvent P)
unfolding prune_events
get_events now after_id log =
    let pruned = prune_events now log in
    (pruned, select (λ event. ltb after_id event.id) pruned.events)

module _ {P : Type 0} (size_of : SignalEvent P → ℕ) where
  -- The while loop, which goes down from `startIndex`.
  unfoldable pub start_index_loop : List (SignalEvent P) → ℕ → ℕ → ℕ
  start_index_loop events zero retained_bytes = zero
  start_index_loop events (suc start) retained_bytes = elim (get_elem? events start) [
    | none ↦ suc start
    | some event ↦
        let rest = start_index_loop events start (retained_bytes + size_of event) in
        if ltb max_event_bytes (retained_bytes + size_of event) then suc start else rest
  ]

  abbrev pub within_bytes : List (SignalEvent P) → List (SignalEvent P)
  within_bytes events = drop (start_index_loop events (length events) 0) events

  unfoldable pub record_event :
      ℕ → ℕ → Direction → String → P → EventLog P → EventLog P × SignalEvent P
  record_event received_at now direction event payload log =
      let recorded : SignalEvent P = record {
        id = log.next_id;
        direction = direction;
        event = event;
        received_at = received_at;
        payload = payload;
      } in
      let recent = slice_last max_events (select (is_recent now) (log.events ++ recorded ∷ [])) in
      (record { events = within_bytes recent; next_id = suc log.next_id }, recorded)
