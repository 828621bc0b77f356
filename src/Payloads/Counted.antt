-- ===== src/Payloads/Counted.antt =====
-- What the readiness analysis reads from a recorded SOAC message.
use Prim.Native.String.{String}
use text.Mathlib.Text.{◌==◌ as str_eq}
use uurc_web_new.Prelude.{◌≡◌, refl, ap, ◌∙◌, false, Option, none, some, [], ◌∷◌, if◌then◌else◌}
use uurc_web_new.Json.{Json, Fields, str, bin, obj, end, field, prop}
use uurc_web_new.Readiness.Payload.{
  SoacType, offer, answer, candidate, restart_ice, soac_types, soac_type_of, known_types,
}
use uurc_web_new.Requests.{SoacRequest}
use uurc_web_new.Payloads.{
  Codec, is_text, field_if, json_of, network_json, candidate_json, data_after, type_text,
  with_client, streamer_soac_payload, to_compress, compressed, soac_payload, to_binary, normalize,
  normalize_fields, binary_or, decoded,
}

type_text-read : (t : SoacType) → soac_type_of (str (type_text t)) ≡ some t
type_text-read offer = refl
type_text-read answer = refl
type_text-read candidate = refl
type_text-read restart_ice = refl

prop-field_if :
    (key other : String) (o : Option Json) (rest : Fields)
    → str_eq other key ≡ false
    → prop key (field_if other o rest) ≡ prop key rest
prop-field_if key other none rest ne = refl
prop-field_if key other (some v) rest ne = rw ne refl

prop-data_after :
    (r : SoacRequest) (sdp : Option Json) (rest : Fields)
    → prop "kind" (data_after r sdp rest) ≡ prop "kind" rest
prop-data_after r sdp rest =
    prop-field_if "kind" "sdp" sdp
      (field_if "ice_id" (json_of str r.ice_id) (
        field_if "app_control_id" (json_of str r.app_control_id) (
          field_if "ice_network_type" (network_json r)
            (field_if "candidate" (json_of candidate_json r.soac_candidate) rest))))
      refl
    ∙ prop-field_if "kind" "ice_id" (json_of str r.ice_id)
        (field_if "app_control_id" (json_of str r.app_control_id) (
          field_if "ice_network_type" (network_json r)
            (field_if "candidate" (json_of candidate_json r.soac_candidate) rest)))
        refl
    ∙ prop-field_if "kind" "app_control_id" (json_of str r.app_control_id)
        (field_if "ice_network_type" (network_json r)
          (field_if "candidate" (json_of candidate_json r.soac_candidate) rest))
        refl
    ∙ prop-field_if "kind" "ice_network_type" (network_json r)
        (field_if "candidate" (json_of candidate_json r.soac_candidate) rest) refl
    ∙ prop-field_if "kind" "candidate" (json_of candidate_json r.soac_candidate) rest refl

module _ (codec : Codec) where
  normalize-typed :
      (u : String) (rest : Fields)
      → is_text "binary" (prop "kind" rest) ≡ false
      → normalize codec (obj (field "type" (str u) rest))
        ≡ obj (field "type" (str u) (normalize_fields codec rest))
  unfolding normalize to_binary
  normalize-typed u rest k =
      ap
        (λ b.
          binary_or codec (if b then decoded codec (prop "base64" rest) else none)
            (obj (field "type" (str u) (normalize_fields codec rest))))
        k

  with_client-soac_types :
      (client : Option String) (t : SoacType) (rest : Fields)
      → is_text "binary" (prop "kind" rest) ≡ false
      → soac_types
          (normalize codec (with_client client (obj (field "type" (str (type_text t)) rest))))
        ≡ t ∷ []
  unfolding soac_types normalize to_binary
  with_client-soac_types none t rest k =
      ap (λ d. soac_types (obj (field "data" d end))) (normalize-typed (type_text t) rest k)
      ∙ ap (known_types none) (type_text-read t)
  with_client-soac_types (some client) t rest k =
      ap (λ d. soac_types (obj (field "client_id" (str client) (field "data" d end))))
        (normalize-typed (type_text t) rest k)
      ∙ ap (known_types none) (type_text-read t)

  compressed-soac_types :
      (r : SoacRequest) (o : Option String)
      → soac_types (normalize codec (compressed codec r o)) ≡ r.soac_type ∷ []
  unfolding streamer_soac_payload
  compressed-soac_types r none =
      with_client-soac_types r.client_id r.soac_type (data_after r (json_of str r.sdp) end)
        (ap (is_text "binary") (prop-data_after r (json_of str r.sdp) end))
  compressed-soac_types r (some sdp) =
      let rest = field "gzip_sdp" (bin (codec.gzip_text sdp)) end in
      with_client-soac_types r.client_id r.soac_type (data_after r (some (str "")) rest)
        (ap (is_text "binary") (prop-data_after r (some (str "")) rest))

  -- Every SOAC request that the service may send, compressed or not, is recorded as a payload in
  -- which the readiness analysis finds one message, of the request's type.
  pub soac_types-soac_payload :
      (r : SoacRequest) → soac_types (normalize codec (soac_payload codec r)) ≡ r.soac_type ∷ []
  unfolding soac_payload
  soac_types-soac_payload r = compressed-soac_types r (to_compress r)
