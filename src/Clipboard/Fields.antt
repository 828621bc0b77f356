-- ===== src/Clipboard/Fields.antt =====
-- internal/clipboardWire.ts: reading the fields of a clipboard message, and the envelope. The
-- fatal `TextDecoder` is the argument `decode`, which fails where it throws.
use uurc_web_new.Prelude.{
  ℕ, Bool, true, not, ◌||◌, Option, none, some, List, [], ◌∷◌, length, select, last?, any, ltb, leb,
  ◌==◌, if◌then◌else◌,
}
use uurc_web_new.Prelude.Options.{◌>>=◌, is_defined}
use uurc_web_new.Wire.{
  ProtobufField, read_fields, length_delimited_bytes, varint_type, length_delimited_type,
  or_default,
}
use uurc_web_new.Clipboard.Schema.{
  clipboard_options, max_message_bytes, max_text_bytes, max_signed_int64, max_signed_int32,
  sequence_tag, timestamp_ms_tag, rpc_request_tag, rpc_response_tag, header_tag, request_id_tag,
}

unfoldable pub read_clipboard_fields : List ℕ → Option (List ProtobufField)
read_clipboard_fields bytes = read_fields bytes clipboard_options

-- `fields.filter((field) => field.tag === tag)`
abbrev pub matching : List ProtobufField → ℕ → List ProtobufField
matching fields tag = select (λ field. field.tag == tag) fields

-- `matching.length === 1 ? protobufLengthDelimitedFieldBytes(bytes, matching[0]) : undefined`
abbrev pub single_bytes : List ℕ → List ProtobufField → Option (List ℕ)
single_bytes bytes (field ∷ []) = length_delimited_bytes bytes field
single_bytes bytes _ = none

unfoldable pub read_single_message_field : List ℕ → List ProtobufField → ℕ → Option (List ℕ)
read_single_message_field bytes fields tag = single_bytes bytes (matching fields tag)

-- `matching.at(-1)?.varint ?? 0n`
abbrev pub last_varint : List ProtobufField → ℕ
last_varint fields = or_default (do field ← last? fields; field.varint) 0

unfoldable pub read_int64 : List ProtobufField → ℕ → Option ℕ
read_int64 fields tag =
    let found = matching fields tag in
    if any (λ field. not (field.wire_type == varint_type) || not (is_defined field.varint)) found
    then none
    else (if leb (last_varint found) max_signed_int64 then some (last_varint found) else none)

unfoldable pub read_int32 : List ProtobufField → ℕ → Option ℕ
read_int32 fields tag = do
  value ← read_int64 fields tag
  if leb value max_signed_int32 then some value else none

-- `field.byteLength === undefined || field.byteLength > maxTextBytes`
abbrev pub too_long : Option ℕ → Bool
too_long none = true
too_long (some size) = ltb max_text_bytes size

abbrev pub last_bytes : List ℕ → Option ProtobufField → Option (List ℕ)
last_bytes bytes none = some []
last_bytes bytes (some field) =
    if too_long field.byte_length then none else length_delimited_bytes bytes field

unfoldable pub read_length_delimited_value : List ℕ → List ProtobufField → ℕ → Option (List ℕ)
read_length_delimited_value bytes fields tag =
    let found = matching fields tag in
    if any (λ field. not (field.wire_type == length_delimited_type)) found
    then none
    else last_bytes bytes (last? found)

unfoldable pub read_text :
    (List ℕ → Option (List ℕ)) → List ℕ → List ProtobufField → ℕ → Option (List ℕ)
read_text decode bytes fields tag = do
  encoded ← read_length_delimited_value bytes fields tag
  decode encoded

unfoldable pub read_bytes : List ℕ → List ProtobufField → ℕ → Option (List ℕ)
read_bytes = read_length_delimited_value

pub record ClipboardEnvelopeMetadata : Type 0 where
  pub sequence : ℕ
  pub timestamp_ms : ℕ
  pub request_id : ℕ

pub record ClipboardRpcEnvelope : Type 0 where
  pub sequence : ℕ
  pub timestamp_ms : ℕ
  pub rpc_tag : ℕ
  pub rpc_bytes : List ℕ

-- The only RPC field, with its bytes.
abbrev pub single_rpc : List ℕ → List ProtobufField → Option (ℕ × List ℕ)
single_rpc bytes (field ∷ []) = do
  rpc_bytes ← length_delimited_bytes bytes field
  some (field.tag, rpc_bytes)
single_rpc bytes _ = none

unfoldable pub decode_envelope_fields : List ℕ → Option ClipboardRpcEnvelope
decode_envelope_fields bytes = do
  fields ← read_clipboard_fields bytes
  sequence ← read_int64 fields sequence_tag
  timestamp_ms ← read_int64 fields timestamp_ms_tag
  (rpc_tag, rpc_bytes) ←
      single_rpc bytes
        (select (λ field. field.tag == rpc_request_tag || field.tag == rpc_response_tag) fields)
  some (record {
    sequence = sequence;
    timestamp_ms = timestamp_ms;
    rpc_tag = rpc_tag;
    rpc_bytes = rpc_bytes;
  })

unfoldable pub decode_clipboard_rpc_envelope : List ℕ → Option ClipboardRpcEnvelope
decode_clipboard_rpc_envelope bytes =
    if ltb max_message_bytes (length bytes) then none else decode_envelope_fields bytes

unfoldable pub decode_clipboard_request_id : List ℕ → Option ℕ
decode_clipboard_request_id rpc_bytes = do
  fields ← read_clipboard_fields rpc_bytes
  header ← read_single_message_field rpc_bytes fields header_tag
  header_fields ← read_clipboard_fields header
  read_int64 header_fields request_id_tag
