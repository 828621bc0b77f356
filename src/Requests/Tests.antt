-- ===== src/Requests/Tests.antt =====
-- Bodies that are accepted, and one that is not.
use uurc_web_new.Prelude.{◌≡◌, ◌↔◌, ◌⊎◌, refl, true, none, some, ok, throw, validation_error}
use uurc_web_new.Prelude.Int.{pos, negsuc}
use uurc_web_new.Json.{Json, Fields, bool, num, whole, str, obj, end, field}
use uurc_web_new.Readiness.Payload.{candidate}
use uurc_web_new.Requests.{
  ControlRequest, SoacRequest, StartRequest, wlan, empty_start, object_of, required_string,
  optional_string, optional_boolean, optional_integer, optional_network_type, required_soac_type,
  parse_control_request, control_request_in, parse_candidate, candidate_in, parse_soac_request,
  soac_request_in, parse_start_request,
}
use uurc_web_new.Requests.Control.{IsControlRequest, parse_control_request-ok_iff}
use uurc_web_new.Requests.Soac.{IsSoacRequest, parse_soac_request-ok_iff}
use uurc_web_new.Requests.Start.{HasNoFields, IsStartRequest, parse_start_request-ok_iff}

abbrev control_body : Json
control_body = obj (field "appControlId" (str "c1") (field "streamerData" (str "{}") end))

abbrev control_request : ControlRequest
control_request = record {
  app_control_id = "c1";
  app_data_base64 = none;
  streamer_data = some "{}";
}

abbrev soac_body : Json
soac_body = obj (
    field "type" (str "candidate") (
      field "iceNetworkType" (num (whole (pos 2))) (
        field "candidate"
          (obj
            (field "candidate" (str "udp 1") (field "sdpMLineIndex" (num (whole (negsuc 0))) end)))
          end)))

abbrev soac_request : SoacRequest
soac_request = record {
  soac_type = candidate;
  client_id = none;
  app_control_id = none;
  ice_id = none;
  sdp = none;
  gzip_sdp = none;
  ice_network_type = some wlan;
  soac_candidate =
      some
        (record { candidate_text = "udp 1"; sdp_mid = none; sdp_m_line_index = some (negsuc 0) });
}

accepted_control : parse_control_request control_body ≡ ok control_request
unfolding parse_control_request control_request_in object_of required_string optional_string
accepted_control = refl

accepted_soac : parse_soac_request soac_body ≡ ok soac_request
unfolding parse_soac_request soac_request_in object_of required_string required_soac_type
    optional_string optional_boolean optional_integer optional_network_type parse_candidate
    candidate_in
accepted_soac = refl

no_candidate :
    parse_soac_request (obj (field "type" (str "candidate") end)) ≡ throw validation_error
unfolding parse_soac_request soac_request_in object_of required_string required_soac_type
    optional_string optional_boolean optional_integer optional_network_type parse_candidate
    candidate_in
no_candidate = refl

parse_control_request-ok_iff_example :
    (parse_control_request control_body ≡ ok control_request)
    ↔ ((f : Fields) × (control_body ≡ obj f) × IsControlRequest f control_request)
parse_control_request-ok_iff_example = parse_control_request-ok_iff control_body control_request

parse_soac_request-ok_iff_example :
    (parse_soac_request soac_body ≡ ok soac_request)
    ↔ ((f : Fields) × (soac_body ≡ obj f) × IsSoacRequest f soac_request)
parse_soac_request-ok_iff_example = parse_soac_request-ok_iff soac_body soac_request

abbrev start_body : Json
start_body = obj (field "gzipSdp" (bool true) (field "signalServerIndex" (num (whole (pos 1))) end))

abbrev start_request : StartRequest
start_request = record {
  gzip_sdp = some true;
  signal_server_index = some 1;
  room_config = none;
  join_context = none;
}

parse_start_request-ok_iff_example : (parse_start_request start_body ≡ ok start_request) ↔ (
    (HasNoFields start_body × (start_request ≡ empty_start))
    ⊎ ((f : Fields) × (start_body ≡ obj f) × IsStartRequest f start_request))
parse_start_request-ok_iff_example = parse_start_request-ok_iff start_body start_request
