-- ===== src/EventLog/Tests.antt =====
-- A log of two events, whose payloads are their sizes.
use uurc_web_new.Prelude.{ℕ, ◌≡◌, refl, true, List, [], ◌∷◌, ◌++◌, All, select, arith}
use uurc_web_new.EventLog.{
  SignalEvent, EventLog, inbound, outbound, empty_log, is_recent, record_event, start_index_loop,
  get_events, prune_events,
}
use uurc_web_new.EventLog.Kept.{IsKept, record_event-IsKept}

abbrev payload_size : SignalEvent ℕ → ℕ
payload_size e = e.payload

abbrev one : EventLog ℕ
one = record {
  events =
      record { id = 1; direction = outbound; event = "control"; received_at = 5; payload = 10 }
      ∷ [];
  next_id = 2;
}

recorded_one : (record_event payload_size 5 5 outbound "control" 10 empty_log).0 ≡ one
unfolding record_event start_index_loop
recorded_one = refl

-- After a quarter of an hour it is gone.
old_gone : (get_events 900006 0 one).1 ≡ []
unfolding get_events prune_events
old_gone = refl

one-IsKept : IsKept payload_size one
one-IsKept = record { rising = omega arith; few = omega arith; small = omega arith }

record_event-IsKept_example :
    IsKept payload_size (record_event payload_size 7 7 inbound "soac" 20 one).0
    × All (λ e. is_recent 7 e ≡ true) (record_event payload_size 7 7 inbound "soac" 20 one).0.events
    × ((front : List (SignalEvent ℕ)) × (front
            ++ (record_event payload_size 7 7 inbound "soac" 20 one).0.events
          ≡ select
              (is_recent 7)
              (one.events ++ (record_event payload_size 7 7 inbound "soac" 20 one).1 ∷ [])))
record_event-IsKept_example = record_event-IsKept payload_size 7 7 inbound "soac" 20 one one-IsKept
