-- ===== src/Requests/Model.antt =====
-- The requests that shared/src/signalGateway/model.ts declares, and what they hold.
use Prim.Native.String.{String}
use uurc_web_new.Prelude.{ℕ, Bool, Option, List}
use uurc_web_new.Prelude.Int.{ℤ}
use uurc_web_new.Readiness.Payload.{SoacType}

-- `RemoteSignalControlRequest`
pub record ControlRequest : Type 0 where
  pub app_control_id : String
  pub app_data_base64 : Option String
  pub streamer_data : Option String

-- `RemoteSignalSoacCandidate`
pub record SoacCandidate : Type 0 where
  pub candidate_text : String
  pub sdp_mid : Option String
  pub sdp_m_line_index : Option ℤ

-- `STREAMER_ICE_NETWORK_TYPES`: `wlan` and `v4Wlan` are the same number.
pub data IceNetworkType : Type 0 where
  eth wlan app_auto mobile vpn loopback : IceNetworkType

abbrev pub ice_network_number : IceNetworkType → ℕ
ice_network_number eth = 1
ice_network_number wlan = 2
ice_network_number app_auto = 3
ice_network_number mobile = 4
ice_network_number vpn = 8
ice_network_number loopback = 16

-- `RemoteSignalSoacRequest`
pub record SoacRequest : Type 0 where
  pub soac_type : SoacType
  pub client_id : Option String
  pub app_control_id : Option String
  pub ice_id : Option String
  pub sdp : Option String
  pub gzip_sdp : Option Bool
  pub ice_network_type : Option IceNetworkType
  pub soac_candidate : Option SoacCandidate

-- `StreamerRoomConfig`
pub record RoomConfig : Type 0 where
  pub token : String
  pub signal_servers : List String
  pub timeout : Option ℕ
  pub signal_reconnect_delay : Option ℕ
  pub report_token : Option String
  pub report_url : Option String
  pub report_server_address : Option String
  pub app_data : Option String

-- The fields of `RemoteRoomJoinContext` that the parser returns.
pub record JoinContext : Type 0 where
  pub captured_at : String
  pub device_id : String
  pub force_join : Bool

-- `RemoteSignalGatewayStartRequest`
pub record StartRequest : Type 0 where
  pub gzip_sdp : Option Bool
  pub signal_server_index : Option ℕ
  pub room_config : Option RoomConfig
  pub join_context : Option JoinContext
