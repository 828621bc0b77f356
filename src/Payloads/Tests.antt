-- ===== src/Payloads/Tests.antt =====
-- A description that is compressed, and an acknowledgement with bytes in it.
use uurc_web_new.Prelude.{◌≡◌, refl, true, none, some, [], ◌∷◌, arith}
use uurc_web_new.Json.{Json, str, bin, arr, obj, nil, cons, end, field}
use uurc_web_new.Readiness.Payload.{offer, soac_types}
use uurc_web_new.Requests.{SoacRequest}
use uurc_web_new.Payloads.{Codec, to_binary, binary_payload, normalize, soac_payload}
use uurc_web_new.Payloads.Twice.{normalize-normalize}
use uurc_web_new.Payloads.Counted.{soac_types-soac_payload}

-- The Base64 of the byte 1, and a gzip that forgets the text.
abbrev codec : Codec
codec = record {
  decode_base64 = λ text. 1 ∷ [];
  encode_base64 = λ bytes. "AQ==";
  gzip_text = λ text. 31 ∷ [];
}

abbrev request : SoacRequest
request = record {
  soac_type = offer;
  client_id = some "c";
  app_control_id = none;
  ice_id = some "i";
  sdp = some "v=0";
  gzip_sdp = some true;
  ice_network_type = none;
  soac_candidate = none;
}

sent :
    soac_payload codec request
    ≡ obj (
        field "client_id" (str "c") (
          field "data"
            (obj (
              field "type" (str "offer") (
                field "sdp"
                  (str "")
                  (field "ice_id" (str "i") (field "gzip_sdp" (bin (31 ∷ [])) end)))))
            end))
unfolding soac_payload
sent = refl

abbrev ack : Json
ack = arr (cons (str "success") (cons (obj (field "app_data" (bin (1 ∷ [])) end)) nil))

recorded :
    normalize codec ack
    ≡ arr (
        cons
          (str "success")
          (cons (obj (field "app_data" (binary_payload codec (1 ∷ [])) end)) nil))
unfolding normalize to_binary
recorded = refl

normalize-normalize_example : normalize codec (normalize codec ack) ≡ normalize codec ack
unfolding to_binary
normalize-normalize_example =
    normalize-normalize codec ack (tt, (((λ bytes e. ground arith), (refl, tt)), tt))

soac_types-soac_payload_example :
    soac_types (normalize codec (soac_payload codec request)) ≡ offer ∷ []
soac_types-soac_payload_example = soac_types-soac_payload codec request
