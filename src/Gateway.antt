-- ===== src/Gateway.antt =====
-- The connection of a control service (backend/src/services/remoteControlService.ts) and its status
-- (shared/src/signalGateway/status.ts). An asynchronous operation is cut at each `await`: what is left
-- of it is a `Task`, and the functions below run from one `await` to the next. Gateway/World has the
-- orders in which they may run.
pub mod Model
pub mod World
pub mod Effects
pub mod Tasks
pub mod Tidy
pub mod Runs
pub mod Closing
pub mod Stopped
pub mod Reached
pub mod Tests
unfoldable pub use Model.*
use Prim.Native.String.{String}
use text.Mathlib.Text.{◌==◌ as str_eq}
use uurc_web_new.Prelude.{
  ℕ, suc, Bool, true, false, ◌&&◌, not, Option, none, some, List, [], ◌∷◌, ltb, ◌==◌, if◌then◌else◌,
  get_elem?,
}
use uurc_web_new.Prelude.Int.{pos, number}
use uurc_web_new.Json.{Json, arr, nil, cons, to_items}
use uurc_web_new.EventLog.{
  Direction, inbound, outbound, SignalEvent, EventLog, empty_log, record_event,
}
use uurc_web_new.Readiness.{
  GatewayState, state_idle, state_connecting, state_connected, state_closed, state_error,
}
use uurc_web_new.Requests.{RoomConfig, JoinContext, StartRequest}
use uurc_web_new.Servers.{order_servers}

module _ (helpers : Helpers) where
  -- `recordSignalEvent`
  abbrev pub record_signal : ℕ → Direction → String → Json → Service → Service
  record_signal now direction event payload s = record s {
    log =
        (record_event helpers.size_of now now direction event (helpers.normalize_payload payload)
          s.log).0;
  }

  abbrev pub record_all : ℕ → List (String × Json) → Service → Service
  record_all now [] s = s
  record_all now ((event, payload) ∷ events) s =
      record_all now events (record_signal now inbound event payload s)

  -- The head of the loop over the servers: the next one, or the error of the last.
  unfoldable pub connect_next : ℕ → ℕ → RoomConfig → ℕ → List String → String → Service → Step
  connect_next now generation config started_at (server ∷ rest) last_error s = wait s (
      connecting (record {
        of_generation = generation;
        config = config;
        begun_at = started_at;
        server = server;
        rest = rest;
      }))
  connect_next now generation config started_at [] last_error s =
      if generation == s.generation
      then return_now (record s {
        gateway =
            create_status state_error config started_at now none
              (some (helpers.redact_token last_error config.token)) none;
      })
      else return_now s

  -- `startSignalGateway` from the test of the sequence number to the first connection. Without a
  -- server, `lastError` stays `undefined`.
  unfoldable pub take_over : ℕ → ℕ → StartRequest → RoomConfig → Option JoinContext → Service → Step
  take_over now sequence input config context s =
      if ltb sequence s.authoritative
      then return_now s
      else record (connect_next now (suc s.generation) config now
          (server_index input config.signal_servers) "undefined"
          (taken now sequence config context s)) { closed = s.connection }

  abbrev pub with_context : ℕ → ℕ → StartRequest → RoomConfig → Option JoinContext → Service → Step
  with_context now sequence input config none s = wait s (awaiting_context sequence input config)
  with_context now sequence input config (some context) s =
      take_over now sequence input config (some context) s

  abbrev pub with_config : ℕ → ℕ → StartRequest → Option RoomConfig → Service → Step
  with_config now sequence input none s = wait s (awaiting_config sequence input)
  with_config now sequence input (some config) s =
      with_context now sequence input config input.join_context s

  unfoldable pub start : ℕ → StartRequest → Service → Step
  start now input s =
      with_config now (suc s.next_request) input input.room_config
        (record s { next_request = suc s.next_request })

  -- What follows `connect`: the number of a connection that was made is an argument.
  unfoldable pub connected : ℕ → ℕ → Option String → Attempt → Service → Step
  connected now made id attempt s =
      if attempt.of_generation == s.generation
      then return_now (record s {
        connection = some made;
        gateway =
            create_status state_connected attempt.config attempt.begun_at now id none
              (some attempt.server);
      })
      else record { service = s; next = none; closed = some made }

  unfoldable pub connect_error : ℕ → String → Attempt → Service → Step
  connect_error now message attempt s =
      if attempt.of_generation == s.generation
      then connect_next now attempt.of_generation attempt.config attempt.begun_at attempt.rest
          message s
      else return_now s

  -- `stopSignalGateway` once it has the context.
  unfoldable pub clear_room : ℕ → Option JoinContext → Service → Step
  clear_room generation none s = return_now s
  clear_room generation (some context) s =
      if helpers.can_clear && not (str_eq context.device_id "")
      then wait s (awaiting_clear generation)
      else return_now s

  abbrev pub clear_after : ℕ → Option JoinContext → Service → Step
  clear_after generation none s = wait s (awaiting_stop_context generation)
  clear_after generation (some context) s = clear_room generation (some context) s

  unfoldable pub stop : ℕ → Service → Step
  stop now s = record (clear_after (suc s.generation) s.join_context (stopped now s)) {
    closed = s.connection;
  }

  unfoldable pub stop_context : ℕ → Option JoinContext → Service → Step
  stop_context generation context s =
      if generation == s.generation then clear_room generation context s else return_now s

  unfoldable pub room_cleared : ℕ → ℕ → Json → Service → Step
  room_cleared now generation summary s =
      if generation == s.generation
      then return_now (record s {
        gateway = record (s.gateway) { room_clear = some summary; updated_at = now };
      })
      else return_now s

  -- The message is already redacted.
  unfoldable pub room_clear_failed : ℕ → ℕ → String → Service → Step
  room_clear_failed now generation message s =
      if generation == s.generation
      then return_now (record s {
        gateway = record (s.gateway) { room_clear_error = some message; updated_at = now };
      })
      else return_now s

  -- `sendSignalControl` and `sendSignalSoac`, of the payload that was built.
  abbrev pub send_control_on : ℕ → Json → Option ℕ → Service → Step
  send_control_on now payload none s = return_now s
  send_control_on now payload (some c) s =
      wait (record_signal now outbound "control" payload s) (awaiting_ack c s.generation)

  unfoldable pub send_control : ℕ → Json → Service → Step
  send_control now payload s = send_control_on now payload s.connection s

  unfoldable pub control_ack : ℕ → ℕ → ℕ → List Json → Service → Step
  control_ack now connection generation ack s =
      if is_current connection generation s
      then return_now (
          record_signal now inbound "control:ack"
            (as_array (helpers.normalize_payload (arr (to_items ack)))) s)
      else return_now s

  abbrev pub send_soac_on : ℕ → Json → Option ℕ → Service → Step
  send_soac_on now payload none s = return_now s
  send_soac_on now payload (some c) s =
      wait (record_signal now outbound "soac" payload s) (awaiting_emit c s.generation)

  unfoldable pub send_soac : ℕ → Json → Service → Step
  send_soac now payload s = send_soac_on now payload s.connection s

  -- The callback of an acknowledgement that may come or not.
  unfoldable pub soac_ack : ℕ → ℕ → ℕ → List Json → Service → Service
  soac_ack now connection generation ack s =
      if is_current connection generation s
      then record_signal now inbound "soac:ack" (arr (to_items ack)) s
      else s

  -- `onSignalEvent`
  unfoldable pub signal_event : ℕ → Attempt → String → List Json → Service → Service
  signal_event now attempt event payload s =
      if attempt.of_generation == s.generation
      then record_all now (helpers.inbound_events event payload) s
      else s

  -- `applyConnectionStateUpdate`, when the connection is there again and when it is not.
  unfoldable pub connection_restored : ℕ → Attempt → Option String → Service → Service
  connection_restored now attempt id s =
      if attempt.of_generation == s.generation
      then record s {
        gateway =
            create_status state_connected attempt.config attempt.begun_at now id none
              (some attempt.server);
      }
      else s

  abbrev pub redacted : Option String → String → Option String
  redacted none token = none
  redacted (some reason) token =
      if str_eq reason "" then none else some (helpers.redact_token reason token)

  unfoldable pub connection_lost : ℕ → Attempt → LostState → Option String → Service → Service
  connection_lost now attempt lost reason s =
      if attempt.of_generation == s.generation
      then record s {
        gateway = record (s.gateway) {
          status = state_of lost;
          connection_id = none;
          updated_at = now;
          error = redacted reason attempt.config.token;
        };
        connection = if for_good lost then none else s.connection;
      }
      else s
