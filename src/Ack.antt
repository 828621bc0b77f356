-- ===== src/Ack.antt =====
-- shared/src/streamer/signalControl.ts and internal/signalControlErrors.ts: the acknowledgement of a
-- control request, and when it is a failure.
pub mod Laws
pub mod Refused
pub mod Tests
use Prim.Native.String.{String}
use text.Mathlib.Text.{◌==◌ as str_eq}
use uurc_web_new.Prelude.{
  ℕ, Bool, true, false, not, ◌||◌, Option, none, some, List, [], ◌∷◌, map, if◌then◌else◌,
}
use uurc_web_new.Prelude.Options.{is_defined}
use uurc_web_new.Json.{
  JsNumber, Json, Items, Fields, undefined, null, str, arr, obj, prop, as_record, string_of,
  full_string_of, finite_of, bool_of, is_code, items,
}

pub data IceUrls : Type 0 where
  one_url : String → IceUrls
  many_urls : List String → IceUrls

pub record ControlIceServer : Type 0 where
  pub urls : IceUrls
  pub username : Option String
  pub credential : Option String

pub record PeerNetworkInfo : Type 0 where
  pub country : Option String
  pub province : Option String
  pub city : Option String
  pub isp : Option String
  pub relay_isp : Option String

pub record ControlResult : Type 0 where
  pub client_id : Option String
  pub ice_id : Option String
  pub app_control_id : Option String
  pub code : Option JsNumber
  pub msg : Option String
  pub app_data_base64 : Option String
  pub streamer_data : Option String
  pub controller_platform : Option JsNumber
  pub force_relay : Option Bool
  pub auto_switch_network : Option Bool
  pub relay_ins_type : Option JsNumber
  pub force_auto_switch_packet_loss : Option JsNumber
  pub force_auto_switch_latency : Option JsNumber
  pub possible_auto_switch_packet_loss : Option JsNumber
  pub possible_auto_switch_latency : Option JsNumber
  pub ice_servers : List ControlIceServer
  pub publisher : Option PeerNetworkInfo
  pub subscriber : Option PeerNetworkInfo

pub record ControlAck : Type 0 where
  pub ack_status : Option String
  pub result : Option ControlResult

pub record ControlFailure : Type 0 where
  pub ack_status : Option String
  pub code : Option JsNumber
  pub msg : Option String
  pub protocol_error : Option String

-- `mapStreamerControlResultProtocolError`
unfoldable pub protocol_error_of : JsNumber → String
protocol_error_of code =
    if is_code 0 code
    then "protocol_error_0"
    else (if is_code 100001 code
        then "protocol_error_2021"
        else (if is_code 100002 code
            then "protocol_error_2022"
            else (if is_code 900001 code
                then "protocol_error_2004"
                else (if is_code 900002 code
                    then "protocol_error_2023"
                    else (if is_code 900003 code
                        then "protocol_error_2024"
                        else "protocol_error_2025")))))

-- The elements that are strings of some length.
abbrev pub full_strings : List Json → List String
full_strings [] = []
full_strings (v ∷ vs) = elim (full_string_of v) [
  | none ↦ full_strings vs
  | some s ↦ s ∷ full_strings vs
]

abbrev pub urls_unless_none : List String → Option IceUrls
urls_unless_none [] = none
urls_unless_none (s ∷ ss) = some (many_urls (s ∷ ss))

unfoldable pub ice_server_urls : Json → Option IceUrls
ice_server_urls (str s) = elim (full_string_of (str s)) [
  | none ↦ none
  | some url ↦ some (one_url url)
]
ice_server_urls (arr vs) = urls_unless_none (full_strings (items vs))
ice_server_urls _ = none

abbrev pub ice_server_with : Fields → Option IceUrls → Option ControlIceServer
ice_server_with record' none = none
ice_server_with record' (some urls) = some (record {
  urls = urls;
  username = string_of (prop "username" record');
  credential = string_of (prop "credential" record');
})

unfoldable pub ice_server : Json → Option ControlIceServer
ice_server value = elim (as_record value) [
  | none ↦ none
  | some fields ↦ ice_server_with fields (ice_server_urls (prop "urls" fields))
]

-- `value.map(normalize).filter((item) => item !== null)`
abbrev pub keep_some {ℓ} : {A : Type ℓ} → (Json → Option A) → List Json → List A
keep_some f [] = []
keep_some f (v ∷ vs) = elim (f v) [ none ↦ keep_some f vs | some a ↦ a ∷ keep_some f vs ]

unfoldable pub ice_servers_of : Json → List ControlIceServer
ice_servers_of (arr vs) = keep_some ice_server (items vs)
ice_servers_of _ = []

unfoldable pub binary_base64 : Json → Option String
binary_base64 (str s) = full_string_of (str s)
binary_base64 value = elim (as_record value) [
  | none ↦ none
  | some fields ↦ full_string_of (prop "base64" fields)
]

-- `Object.keys(info).length > 0 ? info : undefined`
unfoldable pub peer_network_info : Json → Json → Json → Json → Json → Option PeerNetworkInfo
peer_network_info country province city isp relay_isp =
    if is_defined (string_of country)
      || is_defined (string_of province)
      || is_defined (string_of city)
      || is_defined (string_of isp)
      || is_defined (string_of relay_isp)
    then some (record {
      country = string_of country;
      province = string_of province;
      city = string_of city;
      isp = string_of isp;
      relay_isp = string_of relay_isp;
    })
    else none

unfoldable pub control_result : Fields → ControlResult
control_result fields = record {
  client_id = string_of (prop "client_id" fields);
  ice_id = string_of (prop "ice_id" fields);
  app_control_id = string_of (prop "app_control_id" fields);
  code = finite_of (prop "code" fields);
  msg = string_of (prop "msg" fields);
  app_data_base64 = binary_base64 (prop "app_data" fields);
  streamer_data = string_of (prop "streamer_data" fields);
  controller_platform = finite_of (prop "controller_platform" fields);
  force_relay = bool_of (prop "force_relay" fields);
  auto_switch_network = bool_of (prop "auto_switch_network" fields);
  relay_ins_type = finite_of (prop "relay_ins_type" fields);
  force_auto_switch_packet_loss = finite_of (prop "force_auto_switch_pkt_loss" fields);
  force_auto_switch_latency = finite_of (prop "force_auto_switch_latency" fields);
  possible_auto_switch_packet_loss = finite_of (prop "possible_auto_switch_pkt_loss" fields);
  possible_auto_switch_latency = finite_of (prop "possible_auto_switch_latency" fields);
  ice_servers = ice_servers_of (prop "iceServers" fields);
  publisher =
      peer_network_info (prop "publisher_country" fields) (prop "publisher_province" fields)
        (prop "publisher_city" fields) (prop "publisher_isp" fields)
        (prop "publisher_relay_isp" fields);
  subscriber =
      peer_network_info (prop "subscriber_country" fields) (prop "subscriber_province" fields)
        (prop "subscriber_city" fields) (prop "subscriber_isp" fields)
        (prop "subscriber_relay_isp" fields);
}

-- `Array.isArray(ack) ? ack : [ack]`
abbrev pub entries_of : Json → List Json
entries_of (arr vs) = items vs
entries_of ack = ack ∷ []

abbrev pub first_string : List Json → Option String
first_string [] = none
first_string (v ∷ vs) = string_of v

-- `entries.map(asRecord).find((record) => record !== null)`
abbrev pub first_record : List Json → Option Fields
first_record [] = none
first_record (v ∷ vs) = elim (as_record v) [ none ↦ first_record vs | some fields ↦ some fields ]

unfoldable pub normalize_ack : Json → ControlAck
normalize_ack ack = record {
  ack_status = first_string (entries_of ack);
  result = elim (first_record (entries_of ack)) [
    | none ↦ none
    | some fields ↦ some (control_result fields)
  ];
}

abbrev pub code_of : Option ControlResult → Option JsNumber
code_of none = none
code_of (some result) = result.code

abbrev pub msg_of : Option ControlResult → Option String
msg_of none = none
msg_of (some result) = result.msg

-- `status !== undefined && status !== "success"`, `code !== undefined && code !== 0`
abbrev pub status_failed : Option String → Bool
status_failed none = false
status_failed (some status) = not (str_eq status "success")

abbrev pub code_failed : Option JsNumber → Bool
code_failed none = false
code_failed (some code) = not (is_code 0 code)

abbrev pub protocol_error_if : Option JsNumber → Option String
protocol_error_if none = none
protocol_error_if (some code) = some (protocol_error_of code)

-- `getStreamerSignalControlFailure`
unfoldable pub control_failure : ControlAck → Option ControlFailure
control_failure ack =
    if status_failed ack.ack_status || code_failed (code_of ack.result)
    then some (record {
      ack_status = ack.ack_status;
      code = code_of ack.result;
      msg = msg_of ack.result;
      protocol_error = protocol_error_if (code_of ack.result);
    })
    else none

pub record RtcConfiguration : Type 0 where
  pub rtc_ice_servers : List ControlIceServer
  pub relay_only : Bool

abbrev pub force_relay_of : Option ControlResult → Option Bool
force_relay_of none = none
force_relay_of (some result) = result.force_relay

abbrev pub or_bool : Option Bool → Bool → Bool
or_bool none b = b
or_bool (some a) b = a

abbrev pub servers_of : Option ControlResult → List ControlIceServer
servers_of none = []
servers_of (some result) = result.ice_servers

-- `relay_only` is `iceTransportPolicy === "relay"`.
unfoldable pub rtc_configuration : Option ControlResult → Option Bool → RtcConfiguration
rtc_configuration result forced = record {
  rtc_ice_servers = servers_of result;
  relay_only = or_bool forced (or_bool (force_relay_of result) false);
}
