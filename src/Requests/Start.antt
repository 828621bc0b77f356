-- ===== src/Requests/Start.antt =====
-- Which bodies start a gateway.
use Prim.Native.String.{String}
use text.Mathlib.TextEquality.{eq_iff}
use uurc_web_new.Prelude.{
  ◌≡◌, ◌≢◌, ◌↔◌, ◌⊎◌, inl, inr, refl, ap, ◌∙◌, subst, Bool, Option, none, some, All, arith, ok,
  throw, validation_error,
}
use uurc_web_new.Json.{Json, Fields, undefined, null, bool, str, bin, arr, obj, end, prop}
use uurc_web_new.Requests.{
  RoomConfig, JoinContext, StartRequest, object_of, required_string, optional_string,
  optional_boolean, optional_natural, string_array, full_or_throw, given_or_throw, room_config_in,
  parse_room_config, join_context_in, parse_join_context, start_request_in, parse_start_request,
  empty_start,
}
use uurc_web_new.Requests.Readers.{
  bind-ok_then, ok_injective, optional, natural, strings, required_string_iff, optional_string_iff,
  optional_boolean_iff, optional_natural_iff, string_array_iff, Described,
  plain_object_of-Described_iff,
}

pub record IsRoomConfig (f : Fields) (r : RoomConfig) : Type 0 where
  pub token : prop "token" f ≡ str r.token
  pub token_given : r.token ≢ ""
  pub signal_servers : prop "signalServers" f ≡ arr (strings r.signal_servers)
  pub signal_servers_given : All (λ s. s ≢ "") r.signal_servers
  pub timeout : prop "timeout" f ≡ optional natural r.timeout
  pub signal_reconnect_delay :
      prop "signalReconnectDelay" f ≡ optional natural r.signal_reconnect_delay
  pub report_token : prop "reportToken" f ≡ optional str r.report_token
  pub report_url : prop "reportUrl" f ≡ optional str r.report_url
  pub report_server_address : prop "reportServerAddress" f ≡ optional str r.report_server_address
  pub app_data : prop "appData" f ≡ optional str r.app_data

pub record IsJoinContext (f : Fields) (r : JoinContext) : Type 0 where
  pub captured_at : prop "capturedAt" f ≡ str r.captured_at
  pub captured_at_given : r.captured_at ≢ ""
  pub device_id : prop "deviceId" f ≡ str r.device_id
  pub device_id_given : r.device_id ≢ ""
  pub force_join : prop "forceJoin" f ≡ bool r.force_join

pub record IsStartRequest (f : Fields) (r : StartRequest) : Type 0 where
  pub gzip_sdp : prop "gzipSdp" f ≡ optional bool r.gzip_sdp
  pub signal_server_index : prop "signalServerIndex" f ≡ optional natural r.signal_server_index
  pub room_config : Described IsRoomConfig (prop "roomConfig" f) r.room_config
  pub join_context : Described IsJoinContext (prop "joinContext" f) r.join_context

full_or_throw_iff :
    (o : Option String) (s : String) → (full_or_throw o ≡ ok s) ↔ ((o ≡ some s) × (s ≢ ""))
full_or_throw_iff none s = ground arith
full_or_throw_iff (some u) s = ground (arith, eq_iff u "", eq_iff s "")

given_or_throw_iff : (o : Option Bool) (b : Bool) → (given_or_throw o ≡ ok b) ↔ (o ≡ some b)
given_or_throw_iff none b = ground arith
given_or_throw_iff (some c) b = ground arith

room_config_in-IsRoomConfig :
    (f : Fields) (r : RoomConfig) → room_config_in f ≡ ok r → IsRoomConfig f r
unfolding room_config_in
room_config_in-IsRoomConfig f r e = bind-ok_then (required_string (prop "token" f)) e (λ a ea a'.
    bind-ok_then (string_array (prop "signalServers" f)) a' (λ b eb b'.
      bind-ok_then (optional_natural (prop "timeout" f)) b' (λ c ec c'.
        bind-ok_then (optional_natural (prop "signalReconnectDelay" f)) c' (λ d ed d'.
          bind-ok_then (optional_string (prop "reportToken" f)) d' (λ g eg g'.
            bind-ok_then (optional_string (prop "reportUrl" f)) g' (λ i ei i'.
              bind-ok_then (optional_string (prop "reportServerAddress" f)) i' (λ j ej j'.
                bind-ok_then (optional_string (prop "appData" f)) j' (λ k ek k'.
                  subst (IsRoomConfig f) (ok_injective k') (record {
                    token = ((required_string_iff (prop "token" f) a).0 ea).0;
                    token_given = ((required_string_iff (prop "token" f) a).0 ea).1;
                    signal_servers = ((string_array_iff (prop "signalServers" f) b).0 eb).0;
                    signal_servers_given = ((string_array_iff (prop "signalServers" f) b).0 eb).1;
                    timeout = (optional_natural_iff (prop "timeout" f) c).0 ec;
                    signal_reconnect_delay =
                        (optional_natural_iff (prop "signalReconnectDelay" f) d).0 ed;
                    report_token = (optional_string_iff (prop "reportToken" f) g).0 eg;
                    report_url = (optional_string_iff (prop "reportUrl" f) i).0 ei;
                    report_server_address =
                        (optional_string_iff (prop "reportServerAddress" f) j).0 ej;
                    app_data = (optional_string_iff (prop "appData" f) k).0 ek;
                  })))))))))

IsRoomConfig-room_config_in :
    (f : Fields) (r : RoomConfig) → IsRoomConfig f r → room_config_in f ≡ ok r
unfolding room_config_in
IsRoomConfig-room_config_in f r h =
    rw ((required_string_iff (prop "token" f) r.token).1 (h.token, h.token_given)) (
      rw
        ((string_array_iff (prop "signalServers" f) r.signal_servers).1
          (h.signal_servers, h.signal_servers_given))
        (rw ((optional_natural_iff (prop "timeout" f) r.timeout).1 h.timeout) (
          rw
            ((optional_natural_iff (prop "signalReconnectDelay" f) r.signal_reconnect_delay).1
              h.signal_reconnect_delay)
            (rw ((optional_string_iff (prop "reportToken" f) r.report_token).1 h.report_token) (
              rw ((optional_string_iff (prop "reportUrl" f) r.report_url).1 h.report_url) (
                rw
                  ((optional_string_iff (prop "reportServerAddress" f) r.report_server_address).1
                    h.report_server_address)
                  (rw ((optional_string_iff (prop "appData" f) r.app_data).1 h.app_data) refl)))))))

join_context_in-IsJoinContext :
    (f : Fields) (r : JoinContext) → join_context_in f ≡ ok r → IsJoinContext f r
unfolding join_context_in
join_context_in-IsJoinContext f r e =
    bind-ok_then (optional_string (prop "capturedAt" f)) e (λ a ea a'.
      bind-ok_then (optional_string (prop "deviceId" f)) a' (λ b eb b'.
        bind-ok_then (optional_boolean (prop "forceJoin" f)) b' (λ c ec c'.
          bind-ok_then (full_or_throw a) c' (λ d ed d'.
            bind-ok_then (full_or_throw b) d' (λ g eg g'.
              bind-ok_then (given_or_throw c) g' (λ i ei i'.
                subst (IsJoinContext f) (ok_injective i') (record {
                  captured_at =
                      (optional_string_iff (prop "capturedAt" f) a).0 ea
                      ∙ ap (optional str) ((full_or_throw_iff a d).0 ed).0;
                  captured_at_given = ((full_or_throw_iff a d).0 ed).1;
                  device_id =
                      (optional_string_iff (prop "deviceId" f) b).0 eb
                      ∙ ap (optional str) ((full_or_throw_iff b g).0 eg).0;
                  device_id_given = ((full_or_throw_iff b g).0 eg).1;
                  force_join =
                      (optional_boolean_iff (prop "forceJoin" f) c).0 ec
                      ∙ ap (optional bool) ((given_or_throw_iff c i).0 ei);
                })))))))

IsJoinContext-join_context_in :
    (f : Fields) (r : JoinContext) → IsJoinContext f r → join_context_in f ≡ ok r
unfolding join_context_in
IsJoinContext-join_context_in f r h =
    rw ((optional_string_iff (prop "capturedAt" f) (some r.captured_at)).1 h.captured_at) (
      rw ((optional_string_iff (prop "deviceId" f) (some r.device_id)).1 h.device_id) (
        rw ((optional_boolean_iff (prop "forceJoin" f) (some r.force_join)).1 h.force_join) (
          rw ((full_or_throw_iff (some r.captured_at) r.captured_at).1 (refl, h.captured_at_given))
            (rw ((full_or_throw_iff (some r.device_id) r.device_id).1 (refl, h.device_id_given))
              refl))))

room_config_in-end : room_config_in end ≡ throw validation_error
unfolding room_config_in required_string
room_config_in-end = refl

join_context_in-end : join_context_in end ≡ throw validation_error
unfolding join_context_in optional_string optional_boolean
join_context_in-end = refl

parse_room_config_iff :
    (v : Json) (o : Option RoomConfig) → (parse_room_config v ≡ ok o) ↔ Described IsRoomConfig v o
unfolding parse_room_config
parse_room_config_iff =
    plain_object_of-Described_iff room_config_in
      (λ f c. (room_config_in-IsRoomConfig f c, IsRoomConfig-room_config_in f c)) room_config_in-end

parse_join_context_iff :
    (v : Json) (o : Option JoinContext)
    → (parse_join_context v ≡ ok o) ↔ Described IsJoinContext v o
unfolding parse_join_context
parse_join_context_iff =
    plain_object_of-Described_iff join_context_in
      (λ f c. (join_context_in-IsJoinContext f c, IsJoinContext-join_context_in f c))
      join_context_in-end

start_request_in-IsStartRequest :
    (f : Fields) (r : StartRequest) → start_request_in f ≡ ok r → IsStartRequest f r
unfolding start_request_in
start_request_in-IsStartRequest f r e =
    bind-ok_then (optional_boolean (prop "gzipSdp" f)) e (λ a ea a'.
      bind-ok_then (optional_natural (prop "signalServerIndex" f)) a' (λ b eb b'.
        bind-ok_then (parse_room_config (prop "roomConfig" f)) b' (λ c ec c'.
          bind-ok_then (parse_join_context (prop "joinContext" f)) c' (λ d ed d'.
            subst (IsStartRequest f) (ok_injective d') (record {
              gzip_sdp = (optional_boolean_iff (prop "gzipSdp" f) a).0 ea;
              signal_server_index = (optional_natural_iff (prop "signalServerIndex" f) b).0 eb;
              room_config = (parse_room_config_iff (prop "roomConfig" f) c).0 ec;
              join_context = (parse_join_context_iff (prop "joinContext" f) d).0 ed;
            })))))

IsStartRequest-start_request_in :
    (f : Fields) (r : StartRequest) → IsStartRequest f r → start_request_in f ≡ ok r
unfolding start_request_in
IsStartRequest-start_request_in f r h =
    rw ((optional_boolean_iff (prop "gzipSdp" f) r.gzip_sdp).1 h.gzip_sdp) (
      rw
        ((optional_natural_iff (prop "signalServerIndex" f) r.signal_server_index).1
          h.signal_server_index)
        (rw ((parse_room_config_iff (prop "roomConfig" f) r.room_config).1 h.room_config) (
          rw ((parse_join_context_iff (prop "joinContext" f) r.join_context).1 h.join_context)
            refl)))

start_request_in-end : start_request_in end ≡ ok empty_start
unfolding start_request_in optional_boolean optional_natural parse_room_config parse_join_context
start_request_in-end = refl

-- The bodies that are accepted without a field: nothing, and what has none of the keys.
abbrev pub HasNoFields : Json → Type 0
HasNoFields undefined = Unit {0}
HasNoFields null = Unit {0}
HasNoFields (arr vs) = Unit {0}
HasNoFields (bin bytes) = Unit {0}
HasNoFields _ = ⊥

-- A body is accepted as a start request exactly when it has no fields at all (it is missing, null,
-- an array or bytes) and the request is empty, or it is an object whose fields say what the
-- request has, with a full room configuration and join context where these are given.
pub parse_start_request-ok_iff :
    (body : Json) (r : StartRequest)
    → (parse_start_request body ≡ ok r) ↔ (
        (HasNoFields body × (r ≡ empty_start))
        ⊎ ((f : Fields) × (body ≡ obj f) × IsStartRequest f r))
unfolding parse_start_request object_of
parse_start_request-ok_iff (obj f) r = (
  λ e. inr (f, refl, start_request_in-IsStartRequest f r e),
  λ s. elim s [
    | inl (absurd, p) ↦ elim absurd [ ]
    | inr (g, p, h) ↦
        let path : f ≡ g = ground arith in
        ap start_request_in path ∙ IsStartRequest-start_request_in g r h
  ],
)
parse_start_request-ok_iff undefined r = ground arith
parse_start_request-ok_iff null r = ground arith
parse_start_request-ok_iff (arr vs) r = ground (arith, start_request_in-end)
parse_start_request-ok_iff (bin bytes) r = ground (arith, start_request_in-end)
parse_start_request-ok_iff _ r = ground arith
