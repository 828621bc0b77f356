-- ===== src/Payloads.antt =====
-- shared/src/signalGateway/payload.ts, shared/src/streamer/signalSoac.ts and
-- backend/src/services/nodeSignalGatewayBinaryCodec.ts: the payloads that are sent and recorded. Base64 and
-- gzip are parameters.
pub mod Twice
pub mod Counted
pub mod Tests
use Prim.Native.String.{String}
use text.Mathlib.Text.{◌==◌ as str_eq}
use uurc_web_new.Prelude.{
  ℕ, Bool, true, false, ◌&&◌, Option, none, some, List, [], ◌∷◌, length, if◌then◌else◌,
}
use uurc_web_new.Prelude.Int.{ℤ, pos}
use uurc_web_new.Json.{
  Json, JsNumber, Items, Fields, undefined, null, bool, num, whole, str, bin, arr, obj, nil, cons,
  end, field, prop,
}
use uurc_web_new.Readiness.Payload.{SoacType, offer, answer, candidate, restart_ice}
use uurc_web_new.Requests.{ControlRequest, SoacCandidate, SoacRequest, ice_network_number}

-- `Buffer.from(text, "base64")`, `toString("base64")` and `gzipSync`.
pub record Codec : Type 0 where
  pub decode_base64 : String → List ℕ
  pub encode_base64 : List ℕ → String
  pub gzip_text : String → List ℕ

abbrev pub is_text : String → Json → Bool
is_text text (str s) = str_eq s text
is_text text _ = false

abbrev pub type_text : SoacType → String
type_text offer = "offer"
type_text answer = "answer"
type_text candidate = "candidate"
type_text restart_ice = "restart_ice"

-- `if (value !== undefined) data[key] = value`, of a key that follows the others.
abbrev pub field_if : String → Option Json → Fields → Fields
field_if key none rest = rest
field_if key (some v) rest = field key v rest

abbrev pub json_of {ℓ} : {A : Type ℓ} → (A → Json) → Option A → Option Json
json_of json none = none
json_of json (some a) = some (json a)

abbrev pub or_undefined : Option Json → Json
or_undefined none = undefined
or_undefined (some v) = v

abbrev pub candidate_json : SoacCandidate → Json
candidate_json c = obj (
    field "candidate" (str c.candidate_text) (
      field "sdpMid" (or_undefined (json_of str c.sdp_mid)) (
        field "sdpMLineIndex" (or_undefined (json_of (λ z. num (whole z)) c.sdp_m_line_index))
          end)))

abbrev pub network_json : SoacRequest → Option Json
network_json r = elim r.soac_type [
  | candidate ↦ none
  | _ ↦ json_of (λ t. num (whole (pos (ice_network_number t)))) r.ice_network_type
]

-- The fields of `data`, from the text of `sdp` on.
abbrev pub data_after : SoacRequest → Option Json → Fields → Fields
data_after r sdp rest = field_if "sdp" sdp (
    field_if "ice_id" (json_of str r.ice_id) (
      field_if "app_control_id" (json_of str r.app_control_id) (
        field_if "ice_network_type" (network_json r)
          (field_if "candidate" (json_of candidate_json r.soac_candidate) rest))))

abbrev pub with_client : Option String → Json → Json
with_client none data' = obj (field "data" data' end)
with_client (some client) data' = obj (field "client_id" (str client) (field "data" data' end))

-- `buildStreamerSoacPayload`
unfoldable pub streamer_soac_payload : SoacRequest → Json
streamer_soac_payload r =
    with_client r.client_id
      (obj (field "type" (str (type_text r.soac_type)) (data_after r (json_of str r.sdp) end)))

-- `prepareSignalGatewaySoacPayload`: the text that is to be compressed.
abbrev pub is_description : SoacType → Bool
is_description candidate = false
is_description _ = true

abbrev pub is_set : Option Bool → Bool
is_set none = false
is_set (some b) = b

abbrev pub to_compress : SoacRequest → Option String
to_compress r = if is_description r.soac_type && is_set r.gzip_sdp then r.sdp else none

module _ (codec : Codec) where
  -- `buildSignalGatewayControlPayload`
  unfoldable pub control_payload : ControlRequest → Json
  control_payload r = obj (
      field "app_control_id" (str r.app_control_id) (
        field "app_data"
          (bin (codec.decode_base64 (elim r.app_data_base64 [ none ↦ "" | some s ↦ s ])))
          (field "streamer_data" (str (elim r.streamer_data [ none ↦ "" | some s ↦ s ])) end)))

  -- `setCompressedSdp` of the payload that has the text: its field is emptied, another one follows.
  abbrev pub compressed : SoacRequest → Option String → Json
  compressed r none = streamer_soac_payload r
  compressed r (some sdp) = with_client r.client_id (
      obj (
        field "type" (str (type_text r.soac_type))
          (data_after r (some (str "")) (field "gzip_sdp" (bin (codec.gzip_text sdp)) end))))

  -- `buildSignalGatewaySoacPayload`
  unfoldable pub soac_payload : SoacRequest → Json
  soac_payload r = compressed r (to_compress r)

  abbrev pub decoded : Json → Option (List ℕ)
  decoded (str s) = some (codec.decode_base64 s)
  decoded _ = none

  -- `toSignalBuffer`
  unfoldable pub to_binary : Json → Option (List ℕ)
  to_binary (bin bytes) = some bytes
  to_binary (obj fs) =
      if is_text "binary" (prop "kind" fs) then decoded (prop "base64" fs) else none
  to_binary _ = none

  abbrev pub binary_payload : List ℕ → Json
  binary_payload bytes = obj (
      field "kind" (str "binary") (
        field "byteLength" (num (whole (pos (length bytes))))
          (field "base64" (str (codec.encode_base64 bytes)) end)))

  abbrev pub binary_or : Option (List ℕ) → Json → Json
  binary_or none v = v
  binary_or (some bytes) v = binary_payload bytes

  -- `normalizeSignalGatewayPayload`
  unfoldable mutual
    pub normalize : Json → Json
    normalize (bin bytes) = binary_payload bytes
    normalize (arr vs) = arr (normalize_items vs)
    normalize (obj fs) = binary_or (to_binary (obj fs)) (obj (normalize_fields fs))
    normalize v = v

    pub normalize_items : Items → Items
    normalize_items nil = nil
    normalize_items (cons v vs) = cons (normalize v) (normalize_items vs)

    pub normalize_fields : Fields → Fields
    normalize_fields end = end
    normalize_fields (field key v fs) = field key (normalize v) (normalize_fields fs)
