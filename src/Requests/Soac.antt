-- ===== src/Requests/Soac.antt =====
-- Which bodies are SOAC requests.
use uurc_web_new.Prelude.{
  ◌≡◌, ◌≢◌, ◌↔◌, refl, ap, ◌∙◌, subst, Option, none, some, arith, ok, throw, validation_error,
}
use uurc_web_new.Json.{Json, Fields, bool, str, obj, end, prop}
use uurc_web_new.Readiness.Payload.{SoacType, candidate}
use uurc_web_new.Requests.{
  SoacCandidate, SoacRequest, required_string, optional_string, optional_boolean, optional_integer,
  optional_network_type, required_soac_type, candidate_in, parse_candidate, candidate_given,
  soac_request_in, parse_soac_request,
}
use uurc_web_new.Requests.Readers.{
  bind-ok_then, ok_injective, optional, network_type, integer, type_name, required_string_iff,
  optional_string_iff, optional_boolean_iff, optional_integer_iff, optional_network_type_iff,
  required_soac_type_iff, Described, object_of-Described_iff, object_of_iff,
}

-- The fields say what the candidate has.
pub record IsCandidate (f : Fields) (c : SoacCandidate) : Type 0 where
  pub candidate_text : prop "candidate" f ≡ str c.candidate_text
  pub candidate_text_given : c.candidate_text ≢ ""
  pub sdp_mid : prop "sdpMid" f ≡ optional str c.sdp_mid
  pub sdp_m_line_index : prop "sdpMLineIndex" f ≡ optional integer c.sdp_m_line_index

pub record IsSoacRequest (f : Fields) (r : SoacRequest) : Type 0 where
  pub soac_type : prop "type" f ≡ str (type_name r.soac_type)
  pub client_id : prop "clientId" f ≡ optional str r.client_id
  pub app_control_id : prop "appControlId" f ≡ optional str r.app_control_id
  pub ice_id : prop "iceId" f ≡ optional str r.ice_id
  pub sdp : prop "sdp" f ≡ optional str r.sdp
  pub ice_network_type : prop "iceNetworkType" f ≡ optional network_type r.ice_network_type
  pub gzip_sdp : prop "gzipSdp" f ≡ optional bool r.gzip_sdp
  pub soac_candidate : Described IsCandidate (prop "candidate" f) r.soac_candidate
  pub candidate_given : r.soac_type ≡ candidate → r.soac_candidate ≢ none

candidate_in-IsCandidate :
    (f : Fields) (r : SoacCandidate) → candidate_in f ≡ ok r → IsCandidate f r
unfolding candidate_in
candidate_in-IsCandidate f r e = bind-ok_then (required_string (prop "candidate" f)) e (λ a ea a'.
    bind-ok_then (optional_string (prop "sdpMid" f)) a' (λ b eb b'.
      bind-ok_then (optional_integer (prop "sdpMLineIndex" f)) b' (λ c ec c'.
        subst (IsCandidate f) (ok_injective c') (record {
          candidate_text = ((required_string_iff (prop "candidate" f) a).0 ea).0;
          candidate_text_given = ((required_string_iff (prop "candidate" f) a).0 ea).1;
          sdp_mid = (optional_string_iff (prop "sdpMid" f) b).0 eb;
          sdp_m_line_index = (optional_integer_iff (prop "sdpMLineIndex" f) c).0 ec;
        }))))

IsCandidate-candidate_in :
    (f : Fields) (r : SoacCandidate) → IsCandidate f r → candidate_in f ≡ ok r
unfolding candidate_in
IsCandidate-candidate_in f r h =
    rw
      ((required_string_iff (prop "candidate" f) r.candidate_text).1
        (h.candidate_text, h.candidate_text_given))
      (rw ((optional_string_iff (prop "sdpMid" f) r.sdp_mid).1 h.sdp_mid) (
        rw ((optional_integer_iff (prop "sdpMLineIndex" f) r.sdp_m_line_index).1 h.sdp_m_line_index)
          refl))

candidate_in-end : candidate_in end ≡ throw validation_error
unfolding candidate_in required_string
candidate_in-end = refl

parse_candidate_iff :
    (v : Json) (o : Option SoacCandidate) → (parse_candidate v ≡ ok o) ↔ Described IsCandidate v o
unfolding parse_candidate
parse_candidate_iff =
    object_of-Described_iff candidate_in
      (λ f c. (candidate_in-IsCandidate f c, IsCandidate-candidate_in f c)) candidate_in-end

candidate_given_iff :
    (t : SoacType) (o p : Option SoacCandidate)
    → (candidate_given t o ≡ ok p) ↔ ((o ≡ p) × (t ≡ candidate → p ≢ none))
candidate_given_iff candidate none p = (λ e. ground arith, λ (e, h). ground (arith, h refl))
candidate_given_iff candidate (some c) p =
    (λ e. (ok_injective e, λ t. ground arith), λ (e, h). ap ok e)
candidate_given_iff t o p = ground arith

soac_request_in-IsSoacRequest :
    (f : Fields) (r : SoacRequest) → soac_request_in f ≡ ok r → IsSoacRequest f r
unfolding soac_request_in
soac_request_in-IsSoacRequest f r e =
    bind-ok_then (required_soac_type (prop "type" f)) e (λ a ea a'.
      bind-ok_then (optional_string (prop "clientId" f)) a' (λ b eb b'.
        bind-ok_then (optional_string (prop "appControlId" f)) b' (λ c ec c'.
          bind-ok_then (optional_string (prop "iceId" f)) c' (λ d ed d'.
            bind-ok_then (optional_string (prop "sdp" f)) d' (λ g eg g'.
              bind-ok_then (optional_network_type (prop "iceNetworkType" f)) g' (λ i ei i'.
                bind-ok_then (optional_boolean (prop "gzipSdp" f)) i' (λ j ej j'.
                  bind-ok_then (parse_candidate (prop "candidate" f)) j' (λ k ek k'.
                    bind-ok_then (candidate_given a k) k' (λ m em m'.
                      subst (IsSoacRequest f) (ok_injective m') (record {
                        soac_type = (required_soac_type_iff (prop "type" f) a).0 ea;
                        client_id = (optional_string_iff (prop "clientId" f) b).0 eb;
                        app_control_id = (optional_string_iff (prop "appControlId" f) c).0 ec;
                        ice_id = (optional_string_iff (prop "iceId" f) d).0 ed;
                        sdp = (optional_string_iff (prop "sdp" f) g).0 eg;
                        ice_network_type =
                            (optional_network_type_iff (prop "iceNetworkType" f) i).0 ei;
                        gzip_sdp = (optional_boolean_iff (prop "gzipSdp" f) j).0 ej;
                        soac_candidate =
                            (parse_candidate_iff (prop "candidate" f) m).0
                              (ek ∙ ap ok ((candidate_given_iff a k m).0 em).0);
                        candidate_given = ((candidate_given_iff a k m).0 em).1;
                      }))))))))))

IsSoacRequest-soac_request_in :
    (f : Fields) (r : SoacRequest) → IsSoacRequest f r → soac_request_in f ≡ ok r
unfolding soac_request_in
IsSoacRequest-soac_request_in f r h =
    rw ((required_soac_type_iff (prop "type" f) r.soac_type).1 h.soac_type) (
      rw ((optional_string_iff (prop "clientId" f) r.client_id).1 h.client_id) (
        rw ((optional_string_iff (prop "appControlId" f) r.app_control_id).1 h.app_control_id) (
          rw ((optional_string_iff (prop "iceId" f) r.ice_id).1 h.ice_id) (
            rw ((optional_string_iff (prop "sdp" f) r.sdp).1 h.sdp) (
              rw
                ((optional_network_type_iff (prop "iceNetworkType" f) r.ice_network_type).1
                  h.ice_network_type)
                (rw ((optional_boolean_iff (prop "gzipSdp" f) r.gzip_sdp).1 h.gzip_sdp) (
                  rw
                    ((parse_candidate_iff (prop "candidate" f) r.soac_candidate).1 h.soac_candidate)
                    (rw
                      ((candidate_given_iff r.soac_type r.soac_candidate r.soac_candidate).1
                        (refl, h.candidate_given))
                      refl))))))))

soac_request_in-end : soac_request_in end ≡ throw validation_error
unfolding soac_request_in required_soac_type
soac_request_in-end = refl

-- A body is accepted as a SOAC request, with the request as result, exactly when it is an object
-- whose fields say what the request has: a known type, texts, a flag, a known network type and a
-- candidate where they are given, and a candidate in a request of type `candidate`.
pub parse_soac_request-ok_iff :
    (body : Json) (r : SoacRequest)
    → (parse_soac_request body ≡ ok r) ↔ ((f : Fields) × (body ≡ obj f) × IsSoacRequest f r)
unfolding parse_soac_request
parse_soac_request-ok_iff body r = (
  λ e.
      let (f, p, e') = (object_of_iff soac_request_in body r soac_request_in-end).0 e in
      (f, p, soac_request_in-IsSoacRequest f r e'),
  λ (f, p, h).
      (object_of_iff soac_request_in body r soac_request_in-end).1
        (f, p, IsSoacRequest-soac_request_in f r h),
)
