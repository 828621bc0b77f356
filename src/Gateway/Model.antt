-- ===== src/Gateway/Model.antt =====
-- The data of a control service's connection, and what it is set to.
use Prim.Native.String.{String}
use uurc_web_new.Prelude.{
  ℕ, suc, Bool, true, false, ◌&&◌, Option, none, some, List, [], ◌==◌, get_elem?,
}
use uurc_web_new.Prelude.Int.{pos, number}
use uurc_web_new.Json.{Json, arr, nil, cons}
use uurc_web_new.EventLog.{SignalEvent, EventLog, empty_log}
use uurc_web_new.Readiness.{GatewayState, state_idle, state_connecting, state_closed, state_error}
use uurc_web_new.Requests.{RoomConfig, JoinContext, StartRequest}
use uurc_web_new.Servers.{order_servers}

-- The other functions that the service calls: `redactSignalGatewayToken`, the size of an event in the
-- log, `normalizeSignalGatewayInboundEvents` and `normalizeSignalGatewayPayload`, and whether the
-- source of room configurations has `clearByDevice`.
pub record Helpers : Type 0 where
  pub redact_token : String → String → String
  pub size_of : SignalEvent Json → ℕ
  pub inbound_events : String → List Json → List (String × Json)
  pub normalize_payload : Json → Json
  pub can_clear : Bool

-- The fields of `RemoteSignalGatewayStatus` that change. A room that was cleared has its summary.
pub record Status : Type 0 where
  pub status : GatewayState
  pub selected_signal_server : Option String
  pub signal_servers : List String
  pub connection_id : Option String
  pub started_at : Option ℕ
  pub updated_at : ℕ
  pub error : Option String
  pub room_clear : Option Json
  pub room_clear_error : Option String

-- `RemoteControlService`. A connection is the number of its making.
pub record Service : Type 0 where
  pub connection : Option ℕ
  pub gateway : Status
  pub log : EventLog Json
  pub join_context : Option JoinContext
  pub next_request : ℕ
  pub authoritative : ℕ
  pub generation : ℕ

-- A call of `connect` on a server, and the servers that are tried after it.
pub record Attempt : Type 0 where
  pub of_generation : ℕ
  pub config : RoomConfig
  pub begun_at : ℕ
  pub server : String
  pub rest : List String

-- Where an operation waits.
pub data Task : Type 0 where
  awaiting_config : ℕ → StartRequest → Task
  awaiting_context : ℕ → StartRequest → RoomConfig → Task
  connecting : Attempt → Task
  awaiting_ack : ℕ → ℕ → Task
  awaiting_emit : ℕ → ℕ → Task
  awaiting_stop_context : ℕ → Task
  awaiting_clear : ℕ → Task

-- What the operation waited for.
pub data Result : Type 0 where
  got_config : Option RoomConfig → Result
  got_context : Option JoinContext → Result
  got_connection : Option String → Result
  connect_failed : String → Result
  got_ack : List Json → Result
  ack_failed : Result
  emitted : Result
  cleared : Json → Result
  clear_failed : String → Result

-- The updates of a connection's state that are not `connected`.
pub data LostState : Type 0 where
  lost_connecting lost_closed lost_error : LostState

abbrev pub state_of : LostState → GatewayState
state_of lost_connecting = state_connecting
state_of lost_closed = state_closed
state_of lost_error = state_error

-- `input.update.status === "closed" || input.update.status === "error"`
abbrev pub for_good : LostState → Bool
for_good lost_connecting = false
for_good lost_closed = true
for_good lost_error = true

-- What a piece of an operation leaves: the service, the rest of the operation, and the connection on
-- which `close` was called.
pub record Step : Type 0 where
  pub service : Service
  pub next : Option Task
  pub closed : Option ℕ

abbrev pub return_now : Service → Step
return_now s = record { service = s; next = none; closed = none }

abbrev pub wait : Service → Task → Step
wait s task = record { service = s; next = some task; closed = none }

-- `createIdleSignalGatewayStatus`
abbrev pub idle_status : ℕ → Status
idle_status now = record {
  status = state_idle;
  selected_signal_server = none;
  signal_servers = [];
  connection_id = none;
  started_at = none;
  updated_at = now;
  error = none;
  room_clear = none;
  room_clear_error = none;
}

abbrev pub or_first : Option String → List String → Option String
or_first none servers = get_elem? servers 0
or_first (some server) servers = some server

-- `createSignalGatewayStatus`
abbrev pub create_status :
    GatewayState → RoomConfig → ℕ → ℕ → Option String → Option String → Option String → Status
create_status state config started_at now connection_id error selected = record {
  status = state;
  selected_signal_server = or_first selected config.signal_servers;
  signal_servers = config.signal_servers;
  connection_id = connection_id;
  started_at = some started_at;
  updated_at = now;
  error = error;
  room_clear = none;
  room_clear_error = none;
}

abbrev pub new_service : ℕ → Service
new_service now = record {
  connection = none;
  gateway = idle_status now;
  log = empty_log;
  join_context = none;
  next_request = 0;
  authoritative = 0;
  generation = 0;
}

abbrev pub server_index : StartRequest → List String → List String
server_index input servers =
    order_servers servers
      (elim input.signal_server_index [ none ↦ none | some n ↦ some (number (pos n)) ])

-- `isCurrentSignalConnection`
unfoldable pub is_current : ℕ → ℕ → Service → Bool
is_current connection generation s = elim s.connection [
  | none ↦ false
  | some c ↦ generation == s.generation && connection == c
]

-- `Array.isArray(normalizedAck) ? normalizedAck : [normalizedAck]`
abbrev pub as_array : Json → Json
as_array (arr vs) = arr vs
as_array value = arr (cons value nil)

-- What `startSignalGateway` sets when it takes over.
abbrev pub taken : ℕ → ℕ → RoomConfig → Option JoinContext → Service → Service
taken now sequence config context s = record s {
  connection = none;
  gateway = create_status state_connecting config now now none none none;
  log = empty_log;
  join_context = context;
  authoritative = sequence;
  generation = suc s.generation;
}

-- What `stopSignalGateway` sets.
abbrev pub stopped : ℕ → Service → Service
stopped now s = record s {
  connection = none;
  gateway = record (s.gateway) {
    status = state_closed;
    connection_id = none;
    room_clear = none;
    room_clear_error = none;
    updated_at = now;
  };
  join_context = none;
  next_request = suc s.next_request;
  authoritative = suc s.next_request;
  generation = suc s.generation;
}
