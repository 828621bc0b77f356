-- ===== src/Readiness/Model.antt =====
-- What the readiness analysis keeps and returns.
use Prim.Native.String.{String}
use uurc_web_new.Prelude.{ℕ, Bool, Option, none}
use uurc_web_new.Json.{JsNumber}
use uurc_web_new.Ack.{ControlFailure}

pub data ReadinessStage : Type 0 where
  idle gateway_connected control_acknowledged offer_sent answer_received : ReadinessStage

pub data Blocker : Type 0 where
  gateway_not_connected control_ack_missing control_ack_failed offer_missing be_controlled_failed
        answer_missing controlled_left_before_answer :
      Blocker

pub data TerminalReason : Type 0 where
  server_kick publisher_disconnected released : TerminalReason

pub record TerminalSignal : Type 0 where
  pub event : String
  pub reason : TerminalReason
  pub received_at : ℕ
  pub trace_id : Option String
  pub ice_id_present : Bool
  pub ice_id_matches_last_offer : Option Bool

pub record ControlAckError : Type 0 where
  pub failure : ControlFailure
  pub received_at : ℕ

pub record BeControlledError : Type 0 where
  pub code : JsNumber
  pub message : Option String
  pub protocol_error : String
  pub received_at : ℕ

pub record ReadinessCounts : Type 0 where
  pub outbound_control : ℕ
  pub inbound_control_ack : ℕ
  pub inbound_control_ack_success : ℕ
  pub inbound_control_ack_failure : ℕ
  pub outbound_offer : ℕ
  pub outbound_candidate : ℕ
  pub inbound_answer : ℕ
  pub inbound_restart_ice : ℕ
  pub inbound_candidate : ℕ
  pub inbound_bmsg_push : ℕ
  pub inbound_leave : ℕ
  pub inbound_released : ℕ
  pub inbound_be_controlled : ℕ
  pub inbound_be_controlled_success : ℕ
  pub inbound_be_controlled_failure : ℕ

-- The locals of `analyzeRemoteSignalReadiness`.
pub record Analysis : Type 0 where
  pub counts : ReadinessCounts
  pub terminal_signal : Option TerminalSignal
  pub control_ack_error : Option ControlAckError
  pub be_controlled_error : Option BeControlledError
  pub last_offer_ice_id : Option String

abbrev pub no_counts : ReadinessCounts
no_counts = record {
  outbound_control = 0;
  inbound_control_ack = 0;
  inbound_control_ack_success = 0;
  inbound_control_ack_failure = 0;
  outbound_offer = 0;
  outbound_candidate = 0;
  inbound_answer = 0;
  inbound_restart_ice = 0;
  inbound_candidate = 0;
  inbound_bmsg_push = 0;
  inbound_leave = 0;
  inbound_released = 0;
  inbound_be_controlled = 0;
  inbound_be_controlled_success = 0;
  inbound_be_controlled_failure = 0;
}

abbrev pub no_analysis : Analysis
no_analysis = record {
  counts = no_counts;
  terminal_signal = none;
  control_ack_error = none;
  be_controlled_error = none;
  last_offer_ice_id = none;
}

pub record StageInput : Type 0 where
  pub signal_gateway_connected : Bool
  pub control_ack_received : Bool
  pub control_ack_failure : Bool
  pub offer_was_sent : Bool
  pub be_controlled_received : Bool
  pub be_controlled_failure : Bool
  pub answer_was_received : Bool
  pub terminal_signal_received : Bool

-- The state of the gateway, and what is copied from its status.
pub data GatewayState : Type 0 where
  state_idle state_connecting state_connected state_closed state_error : GatewayState

pub record GatewayStatus : Type 0 where
  pub status : GatewayState
  pub error : Option String
  pub selected_signal_server : Option String
  pub updated_at : ℕ

pub record Diagnostics : Type 0 where
  pub stage : ReadinessStage
  pub blocker : Option Blocker
  pub gateway_status : GatewayState
  pub gateway_error : Option String
  pub selected_signal_server : Option String
  pub updated_at : Option ℕ
  pub last_event_at : Option ℕ
  pub analysis : Analysis
  pub checks : StageInput
