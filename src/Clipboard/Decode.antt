-- ===== src/Clipboard/Decode.antt =====
-- clipboardV3.ts and clipboardV4.ts: decoding a clipboard message.
use uurc_web_new.Prelude.{ℕ, Option, none, some, List, [], ◌∷◌, select, ◌==◌, ◌||◌, if◌then◌else◌}
use uurc_web_new.Prelude.Options.{◌>>=◌}
use uurc_web_new.Wire.{ProtobufField}
use uurc_web_new.Clipboard.Schema
use uurc_web_new.Clipboard.Fields.{
  read_clipboard_fields, read_single_message_field, read_int32, read_text, read_bytes,
  ClipboardEnvelopeMetadata, ClipboardRpcEnvelope, decode_clipboard_rpc_envelope,
  decode_clipboard_request_id,
}

-- `DecodedStreamerClipboardMessage`
pub data ClipboardMessage : Type 0 where
  text_change_request : ClipboardEnvelopeMetadata → ℕ → List ℕ → ClipboardMessage
  text_change_response : ClipboardEnvelopeMetadata → ℕ → ClipboardMessage

-- `DecodedStreamerClipboardV4Message`: the fields in the order of the source's object literals.
pub data ClipboardV4Message : Type 0 where
  format_data_confirm : ClipboardEnvelopeMetadata → ℕ → List ℕ → ℕ → ClipboardV4Message
  data_block_request : ClipboardEnvelopeMetadata → List ℕ → ℕ → List ℕ → ClipboardV4Message
  data_block_confirm : ClipboardEnvelopeMetadata → ℕ → List ℕ → ℕ → ClipboardV4Message

-- `!blockKey`: the text is missing or empty.
abbrev pub non_empty : Option (List ℕ) → Option (List ℕ)
non_empty none = none
non_empty (some []) = none
non_empty (some (c ∷ cs)) = some (c ∷ cs)

abbrev pub metadata_of : ClipboardRpcEnvelope → ℕ → ClipboardEnvelopeMetadata
metadata_of envelope request_id = record {
  sequence = envelope.sequence;
  timestamp_ms = envelope.timestamp_ms;
  request_id = request_id;
}

unfoldable pub decode_text_change_response :
    List ℕ → ClipboardEnvelopeMetadata → Option ClipboardMessage
decode_text_change_response bytes metadata = do
  fields ← read_clipboard_fields bytes
  result ← read_int32 fields Schema.text_change_result_tag
  some (text_change_response metadata result)

-- `supported.length !== 1` fails; else the tag of the only supported field.
abbrev pub supported_tag : List ProtobufField → Option ℕ
supported_tag (field ∷ []) = some field.tag
supported_tag _ = none

module _ (decode : List ℕ → Option (List ℕ)) where
  unfoldable pub decode_text_change_request :
      List ℕ → ClipboardEnvelopeMetadata → Option ClipboardMessage
  decode_text_change_request bytes metadata = do
    fields ← read_clipboard_fields bytes
    format_id ← read_int32 fields Schema.format_id_tag
    text ← read_text decode bytes fields Schema.text_tag
    some (text_change_request metadata format_id text)

  unfoldable pub decode_clipboard_message : List ℕ → Option ClipboardMessage
  decode_clipboard_message bytes = do
    envelope ← decode_clipboard_rpc_envelope bytes
    fields ← read_clipboard_fields envelope.rpc_bytes
    request_id ← decode_clipboard_request_id envelope.rpc_bytes
    if envelope.rpc_tag == Schema.rpc_request_tag
        then (do
          body ← read_single_message_field envelope.rpc_bytes fields Schema.text_change_request_tag
          decode_text_change_request body (metadata_of envelope request_id))
        else (do
          body ← read_single_message_field envelope.rpc_bytes fields Schema.text_change_response_tag
          decode_text_change_response body (metadata_of envelope request_id))

  unfoldable pub decode_v4_request : List ℕ → ClipboardEnvelopeMetadata → Option ClipboardV4Message
  decode_v4_request bytes metadata = do
    fields ← read_clipboard_fields bytes
    body ← read_single_message_field bytes fields Schema.data_block_tag
    body_fields ← read_clipboard_fields body
    block_key ← non_empty (read_text decode body body_fields Schema.data_block_key)
    block_id ← read_int32 body_fields Schema.data_block_id
    content ← read_bytes body body_fields Schema.data_block_content
    some (data_block_request metadata block_key block_id content)

  unfoldable pub decode_format_data_confirm :
      List ℕ → List ProtobufField → ClipboardEnvelopeMetadata → Option ClipboardV4Message
  decode_format_data_confirm body body_fields metadata = do
    block_key ← non_empty (read_text decode body body_fields Schema.format_confirm_block_key)
    result ← read_int32 body_fields Schema.format_confirm_result
    block_count ← read_int32 body_fields Schema.format_confirm_block_count
    some (format_data_confirm metadata result block_key block_count)

  unfoldable pub decode_data_block_confirm :
      List ℕ → List ProtobufField → ClipboardEnvelopeMetadata → Option ClipboardV4Message
  decode_data_block_confirm body body_fields metadata = do
    block_key ← non_empty (read_text decode body body_fields Schema.block_confirm_key)
    result ← read_int32 body_fields Schema.block_confirm_result
    block_id ← read_int32 body_fields Schema.block_confirm_id
    some (data_block_confirm metadata result block_key block_id)

  unfoldable pub decode_v4_response : List ℕ → ClipboardEnvelopeMetadata → Option ClipboardV4Message
  decode_v4_response bytes metadata = do
    fields ← read_clipboard_fields bytes
    tag ← supported_tag (
        select
          (λ field.
            field.tag == Schema.format_data_confirm_tag
            || field.tag == Schema.data_block_confirm_tag)
          fields)
    body ← read_single_message_field bytes fields tag
    body_fields ← read_clipboard_fields body
    if tag == Schema.format_data_confirm_tag
        then decode_format_data_confirm body body_fields metadata
        else decode_data_block_confirm body body_fields metadata

  unfoldable pub decode_clipboard_v4_message : List ℕ → Option ClipboardV4Message
  decode_clipboard_v4_message bytes = do
    envelope ← decode_clipboard_rpc_envelope bytes
    rpc_fields ← read_clipboard_fields envelope.rpc_bytes
    request_id ← decode_clipboard_request_id envelope.rpc_bytes
    let request = envelope.rpc_tag == Schema.rpc_request_tag
    clip_bytes ←
        read_single_message_field envelope.rpc_bytes rpc_fields
          (if request then Schema.clip_request_tag else Schema.clip_response_tag)
    if request
        then decode_v4_request clip_bytes (metadata_of envelope request_id)
        else decode_v4_response clip_bytes (metadata_of envelope request_id)
