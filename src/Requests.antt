-- ===== src/Requests.antt =====
-- shared/src/signalGateway/requests.ts: what the backend and the worker accept as a request's body.
-- `parseOptionalEventId`, which reads a query parameter, is left out.
pub mod Model
pub mod Readers
pub mod Control
pub mod Soac
pub mod Start
pub mod Tests
pub use Model.*
use Prim.Native.String.{String}
use text.Mathlib.Text.{◌==◌ as str_eq}
use uurc_web_new.Prelude.{
  ℕ, Bool, true, false, Option, none, some, List, [], ◌∷◌, if◌then◌else◌, Outcome, ok, throw,
  validation_error, ◌>>=◌, ◌==◌,
}
use uurc_web_new.Prelude.Int.{ℤ, pos}
use uurc_web_new.Json.{
  Json, JsNumber, Items, Fields, undefined, null, bool, num, whole, str, bin, arr, obj, nil, cons,
  end, prop, as_record, full_string_of,
}
use uurc_web_new.Readiness.Payload.{SoacType, offer, answer, candidate, restart_ice, soac_type_of}

-- `!value || typeof value !== "object"` is false. An array is an object without the keys asked for.
unfoldable pub object_of : Json → Outcome Fields
object_of (obj fields) = ok fields
object_of (arr vs) = ok end
object_of (bin bytes) = ok end
object_of _ = throw validation_error

-- The same where an array is refused too.
unfoldable pub plain_object_of : Json → Outcome Fields
plain_object_of (obj fields) = ok fields
plain_object_of (bin bytes) = ok end
plain_object_of _ = throw validation_error

-- `typeof value !== "string" || value.length === 0`
unfoldable pub required_string : Json → Outcome String
required_string (str s) = if str_eq s "" then throw validation_error else ok s
required_string _ = throw validation_error

-- `assertOptionalString`, `assertOptionalBase64String`
unfoldable pub optional_string : Json → Outcome (Option String)
optional_string undefined = ok none
optional_string (str s) = ok (some s)
optional_string _ = throw validation_error

-- `assertOptionalBoolean`
unfoldable pub optional_boolean : Json → Outcome (Option Bool)
optional_boolean undefined = ok none
optional_boolean (bool b) = ok (some b)
optional_boolean _ = throw validation_error

-- `assertOptionalNonNegativeInteger`
unfoldable pub optional_natural : Json → Outcome (Option ℕ)
optional_natural undefined = ok none
optional_natural (num (whole (pos n))) = ok (some n)
optional_natural _ = throw validation_error

-- `record.sdpMLineIndex !== undefined && !Number.isInteger(record.sdpMLineIndex)`
unfoldable pub optional_integer : Json → Outcome (Option ℤ)
optional_integer undefined = ok none
optional_integer (num (whole z)) = ok (some z)
optional_integer _ = throw validation_error

-- `Object.values(STREAMER_ICE_NETWORK_TYPES).includes(value)`
abbrev pub known_network_type : ℕ → Outcome (Option IceNetworkType)
known_network_type n =
    if n == 1
    then ok (some eth)
    else (if n == 2
        then ok (some wlan)
        else (if n == 3
            then ok (some app_auto)
            else (if n == 4
                then ok (some mobile)
                else (if n == 8
                    then ok (some vpn)
                    else (if n == 16 then ok (some loopback) else throw validation_error)))))

-- `assertOptionalStreamerIceNetworkType`
unfoldable pub optional_network_type : Json → Outcome (Option IceNetworkType)
optional_network_type undefined = ok none
optional_network_type (num (whole (pos n))) = known_network_type n
optional_network_type _ = throw validation_error

-- `isStreamerSoacType`
unfoldable pub required_soac_type : Json → Outcome SoacType
required_soac_type value = elim (soac_type_of value) [
  | none ↦ throw validation_error
  | some type ↦ ok type
]

-- `record.signalServers.every((item) => typeof item === "string" && item.length > 0)`
abbrev pub string_items : Items → Outcome (List String)
string_items nil = ok []
string_items (cons v vs) = required_string v >>= λ s. string_items vs >>= λ ss. ok (s ∷ ss)

-- `!Array.isArray(record.signalServers) || …`
unfoldable pub string_array : Json → Outcome (List String)
string_array (arr vs) = string_items vs
string_array _ = throw validation_error

-- `parseSignalControlRequest`
unfoldable pub control_request_in : Fields → Outcome ControlRequest
control_request_in fields = do
  app_control_id ← required_string (prop "appControlId" fields)
  app_data_base64 ← optional_string (prop "appDataBase64" fields)
  streamer_data ← optional_string (prop "streamerData" fields)
  ok (record {
    app_control_id = app_control_id;
    app_data_base64 = app_data_base64;
    streamer_data = streamer_data;
  })

unfoldable pub parse_control_request : Json → Outcome ControlRequest
parse_control_request body = object_of body >>= control_request_in

unfoldable pub candidate_in : Fields → Outcome SoacCandidate
candidate_in fields = do
  candidate_text ← required_string (prop "candidate" fields)
  sdp_mid ← optional_string (prop "sdpMid" fields)
  sdp_m_line_index ← optional_integer (prop "sdpMLineIndex" fields)
  ok (record {
    candidate_text = candidate_text;
    sdp_mid = sdp_mid;
    sdp_m_line_index = sdp_m_line_index;
  })

-- `undefined` is left out, and anything else is read.
abbrev pub unless_undefined {ℓ} : {A : Type ℓ} → (Json → Outcome A) → Json → Outcome (Option A)
unless_undefined read undefined = ok none
unless_undefined read value = read value >>= λ a. ok (some a)

-- `parseOptionalSoacCandidate`
unfoldable pub parse_candidate : Json → Outcome (Option SoacCandidate)
parse_candidate = unless_undefined (λ value. object_of value >>= candidate_in)

-- `record.type === "candidate" && !candidate`
abbrev pub candidate_given : SoacType → Option SoacCandidate → Outcome (Option SoacCandidate)
candidate_given candidate none = throw validation_error
candidate_given type given = ok given

-- `parseSignalSoacRequest`
unfoldable pub soac_request_in : Fields → Outcome SoacRequest
soac_request_in fields = do
  soac_type ← required_soac_type (prop "type" fields)
  client_id ← optional_string (prop "clientId" fields)
  app_control_id ← optional_string (prop "appControlId" fields)
  ice_id ← optional_string (prop "iceId" fields)
  sdp ← optional_string (prop "sdp" fields)
  ice_network_type ← optional_network_type (prop "iceNetworkType" fields)
  gzip_sdp ← optional_boolean (prop "gzipSdp" fields)
  parsed ← parse_candidate (prop "candidate" fields)
  soac_candidate ← candidate_given soac_type parsed
  ok (record {
    soac_type = soac_type;
    client_id = client_id;
    app_control_id = app_control_id;
    ice_id = ice_id;
    sdp = sdp;
    gzip_sdp = gzip_sdp;
    ice_network_type = ice_network_type;
    soac_candidate = soac_candidate;
  })

unfoldable pub parse_soac_request : Json → Outcome SoacRequest
parse_soac_request body = object_of body >>= soac_request_in

unfoldable pub room_config_in : Fields → Outcome RoomConfig
room_config_in fields = do
  token ← required_string (prop "token" fields)
  signal_servers ← string_array (prop "signalServers" fields)
  timeout ← optional_natural (prop "timeout" fields)
  signal_reconnect_delay ← optional_natural (prop "signalReconnectDelay" fields)
  report_token ← optional_string (prop "reportToken" fields)
  report_url ← optional_string (prop "reportUrl" fields)
  report_server_address ← optional_string (prop "reportServerAddress" fields)
  app_data ← optional_string (prop "appData" fields)
  ok (record {
    token = token;
    signal_servers = signal_servers;
    timeout = timeout;
    signal_reconnect_delay = signal_reconnect_delay;
    report_token = report_token;
    report_url = report_url;
    report_server_address = report_server_address;
    app_data = app_data;
  })

-- `parseOptionalRoomConfig`
unfoldable pub parse_room_config : Json → Outcome (Option RoomConfig)
parse_room_config = unless_undefined (λ value. plain_object_of value >>= room_config_in)

-- `!text` is false.
abbrev pub full_or_throw : Option String → Outcome String
full_or_throw none = throw validation_error
full_or_throw (some s) = if str_eq s "" then throw validation_error else ok s

abbrev pub given_or_throw : Option Bool → Outcome Bool
given_or_throw none = throw validation_error
given_or_throw (some b) = ok b

unfoldable pub join_context_in : Fields → Outcome JoinContext
join_context_in fields = do
  captured ← optional_string (prop "capturedAt" fields)
  device ← optional_string (prop "deviceId" fields)
  force ← optional_boolean (prop "forceJoin" fields)
  captured_at ← full_or_throw captured
  device_id ← full_or_throw device
  force_join ← given_or_throw force
  ok (record { captured_at = captured_at; device_id = device_id; force_join = force_join })

-- `parseOptionalJoinContext`
unfoldable pub parse_join_context : Json → Outcome (Option JoinContext)
parse_join_context = unless_undefined (λ value. plain_object_of value >>= join_context_in)

unfoldable pub start_request_in : Fields → Outcome StartRequest
start_request_in fields = do
  gzip_sdp ← optional_boolean (prop "gzipSdp" fields)
  signal_server_index ← optional_natural (prop "signalServerIndex" fields)
  room_config ← parse_room_config (prop "roomConfig" fields)
  join_context ← parse_join_context (prop "joinContext" fields)
  ok (record {
    gzip_sdp = gzip_sdp;
    signal_server_index = signal_server_index;
    room_config = room_config;
    join_context = join_context;
  })

abbrev pub empty_start : StartRequest
empty_start = record {
  gzip_sdp = none;
  signal_server_index = none;
  room_config = none;
  join_context = none;
}

-- `parseSignalGatewayStartRequest`
unfoldable pub parse_start_request : Json → Outcome StartRequest
parse_start_request undefined = ok empty_start
parse_start_request null = ok empty_start
parse_start_request body = object_of body >>= start_request_in
