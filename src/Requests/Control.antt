-- ===== src/Requests/Control.antt =====
-- Which bodies are control requests.
use uurc_web_new.Prelude.{◌≡◌, ◌≢◌, ◌↔◌, refl, subst, ok}
use uurc_web_new.Json.{Json, Fields, str, obj, prop}
use uurc_web_new.Requests.{
  ControlRequest, required_string, optional_string, control_request_in, parse_control_request,
}
use uurc_web_new.Requests.Readers.{
  bind-ok_then, ok_injective, optional, required_string_iff, optional_string_iff, object_of_iff,
}

-- The fields say what the request has.
pub record IsControlRequest (f : Fields) (r : ControlRequest) : Type 0 where
  pub app_control_id : prop "appControlId" f ≡ str r.app_control_id
  pub app_control_id_given : r.app_control_id ≢ ""
  pub app_data_base64 : prop "appDataBase64" f ≡ optional str r.app_data_base64
  pub streamer_data : prop "streamerData" f ≡ optional str r.streamer_data

of_parsed : (f : Fields) (r : ControlRequest) → control_request_in f ≡ ok r → IsControlRequest f r
unfolding control_request_in
of_parsed f r e = bind-ok_then (required_string (prop "appControlId" f)) e (λ a ea e1.
    bind-ok_then (optional_string (prop "appDataBase64" f)) e1 (λ b eb e2.
      bind-ok_then (optional_string (prop "streamerData" f)) e2 (λ c ec e3.
        subst (IsControlRequest f) (ok_injective e3) (record {
          app_control_id = ((required_string_iff (prop "appControlId" f) a).0 ea).0;
          app_control_id_given = ((required_string_iff (prop "appControlId" f) a).0 ea).1;
          app_data_base64 = (optional_string_iff (prop "appDataBase64" f) b).0 eb;
          streamer_data = (optional_string_iff (prop "streamerData" f) c).0 ec;
        }))))

to_parsed : (f : Fields) (r : ControlRequest) → IsControlRequest f r → control_request_in f ≡ ok r
unfolding control_request_in
to_parsed f r h =
    rw
      ((required_string_iff (prop "appControlId" f) r.app_control_id).1
        (h.app_control_id, h.app_control_id_given))
      (rw ((optional_string_iff (prop "appDataBase64" f) r.app_data_base64).1 h.app_data_base64)
        (rw ((optional_string_iff (prop "streamerData" f) r.streamer_data).1 h.streamer_data) refl))

-- A body is accepted as a control request exactly when it is an object with an `appControlId` that
-- is a text and not empty, whose other two fields are texts where they are given, and the request
-- has these.
pub parse_control_request-ok_iff :
    (body : Json) (r : ControlRequest)
    → (parse_control_request body ≡ ok r) ↔ ((f : Fields) × (body ≡ obj f) × IsControlRequest f r)
unfolding parse_control_request control_request_in required_string
parse_control_request-ok_iff body r = (
  λ e.
      let (f, p, e') = (object_of_iff control_request_in body r refl).0 e in
      (f, p, of_parsed f r e'),
  λ (f, p, h). (object_of_iff control_request_in body r refl).1 (f, p, to_parsed f r h),
)
