-- ===== src/Clipboard/Encode.antt =====
-- clipboardV3.ts, clipboardV4.ts and internal/clipboardWire.ts: encoding a clipboard message. The
-- `TextEncoder` is the argument `encode`. The errors that the source throws are all `RangeError`s.
use uurc_web_new.Prelude.{
  ℕ, Bool, true, false, Option, List, [], ◌∷◌, length, ltb, ◌==◌, if◌then◌else◌, Outcome, ok, throw,
  range_error, ◌>>=◌, ◌>>◌,
}
use uurc_web_new.Prelude.Int.{pos, negsuc, Numeric, number, bigint, inexact}
use uurc_web_new.Wire.{
  push_varint_field, push_message_field, push_string_field, max_safe_integer, or_default,
}
use uurc_web_new.Clipboard.Schema
use uurc_web_new.Clipboard.Schema.{
  max_signed_int64, max_signed_int32, max_message_bytes, max_text_bytes,
}

-- `normalized > MAX_SIGNED_INT64`
abbrev pub in_int64 : ℕ → Outcome ℕ
in_int64 n = if ltb max_signed_int64 n then throw range_error else ok n

unfoldable pub checked_int64 : Numeric → Outcome ℕ
checked_int64 (number (pos n)) = if ltb max_safe_integer n then throw range_error else in_int64 n
checked_int64 (number (negsuc n)) = throw range_error
checked_int64 (bigint (pos n)) = in_int64 n
checked_int64 (bigint (negsuc n)) = throw range_error
checked_int64 inexact = throw range_error

-- `assertClipboardInt32`, and the same test in `encodeStreamerClipboardTextChangeRequest`. No
-- bigint passes `Number.isSafeInteger`. It returns the number that has passed.
unfoldable pub assert_clipboard_int32 : Numeric → Outcome ℕ
assert_clipboard_int32 (number (pos n)) =
    if ltb max_safe_integer n
    then throw range_error
    else (if ltb max_signed_int32 n then throw range_error else ok n)
assert_clipboard_int32 value = throw range_error

unfoldable pub assert_clipboard_positive_int32 : Numeric → Outcome ℕ
assert_clipboard_positive_int32 value = do
  n ← assert_clipboard_int32 value
  if n == 0 then throw range_error else ok n

-- `if (n !== 0) pushVarintField(bytes, tag, n)`, of a bigint and of a number.
abbrev pub push_nonzero_bigint : List ℕ → ℕ → ℕ → Outcome (List ℕ)
push_nonzero_bigint bytes tag n =
    if n == 0 then ok bytes else push_varint_field bytes tag (bigint (pos n))

abbrev pub push_nonzero_number : List ℕ → ℕ → ℕ → Outcome (List ℕ)
push_nonzero_number bytes tag n =
    if n == 0 then ok bytes else push_varint_field bytes tag (number (pos n))

-- What every clipboard message carries.
pub record ClipboardStamp : Type 0 where
  pub sequence : Numeric
  pub timestamp_ms : Numeric
  pub request_id : Numeric

unfoldable pub encode_clipboard_rpc_envelope : ClipboardStamp → ℕ → ℕ → List ℕ → Outcome (List ℕ)
encode_clipboard_rpc_envelope stamp rpc_tag body_tag body = do
  sequence ← checked_int64 stamp.sequence
  timestamp_ms ← checked_int64 stamp.timestamp_ms
  request_id ← checked_int64 stamp.request_id
  header ← push_nonzero_bigint [] Schema.request_id_tag request_id
  rpc ← push_message_field [] Schema.header_tag header
  rpc_body ← push_message_field rpc body_tag body
  sequenced ← push_nonzero_bigint [] Schema.sequence_tag sequence
  timed ← push_nonzero_bigint sequenced Schema.timestamp_ms_tag timestamp_ms
  encoded ← push_message_field timed rpc_tag rpc_body
  if ltb max_message_bytes (length encoded) then throw range_error else ok encoded

-- `value !== ""`, and the truth of a text.
abbrev pub is_empty : List ℕ → Bool
is_empty [] = true
is_empty (c ∷ cs) = false

pub record TextChangeRequestInput : Type 0 where
  pub stamp : ClipboardStamp
  pub text : List ℕ
  pub format_id : Option Numeric

pub record FormatDataAskInput : Type 0 where
  pub stamp : ClipboardStamp
  pub block_key : List ℕ
  pub format_id : Option Numeric
  pub format_name : Option (List ℕ)

pub record DataBlockConfirmInput : Type 0 where
  pub stamp : ClipboardStamp
  pub block_key : List ℕ
  pub block_id : Numeric
  pub result : Option Numeric

-- `encodeV4Envelope`
unfoldable pub encode_v4_envelope : ClipboardStamp → Bool → ℕ → List ℕ → Outcome (List ℕ)
encode_v4_envelope stamp request body_tag body = do
  clipboard ← push_message_field [] body_tag body
  encode_clipboard_rpc_envelope stamp
      (if request then Schema.rpc_request_tag else Schema.rpc_response_tag)
      (if request then Schema.clip_request_tag else Schema.clip_response_tag) clipboard

module _ (encode : List ℕ → List ℕ) where
  abbrev pub push_text : List ℕ → ℕ → List ℕ → Outcome (List ℕ)
  push_text bytes tag text =
      if is_empty text then ok bytes else push_string_field encode bytes tag text

  unfoldable pub encode_text_change_request : TextChangeRequestInput → Outcome (List ℕ)
  encode_text_change_request input = do
    format_id ←
        assert_clipboard_int32 (or_default input.format_id (number (pos Schema.text_format)))
    (if ltb max_text_bytes (length (encode input.text)) then throw range_error else ok tt)
    formatted ← push_nonzero_number [] Schema.format_id_tag format_id
    body ← push_text formatted Schema.text_tag input.text
    encode_clipboard_rpc_envelope input.stamp Schema.rpc_request_tag Schema.text_change_request_tag
        body

  unfoldable pub encode_format_data_ask_request : FormatDataAskInput → Outcome (List ℕ)
  encode_format_data_ask_request input = do
    format_id ←
        assert_clipboard_int32
          (or_default input.format_id (number (pos Schema.unicode_text_format)))
    (if is_empty input.block_key then throw range_error else ok tt)
    formatted ← push_nonzero_number [] Schema.ask_format_id format_id
    keyed ← push_string_field encode formatted Schema.ask_block_key input.block_key
    body ← push_text keyed Schema.ask_format_name (or_default input.format_name [])
    encode_v4_envelope input.stamp true Schema.format_data_ask_tag body

  unfoldable pub encode_data_block_confirm_response : DataBlockConfirmInput → Outcome (List ℕ)
  encode_data_block_confirm_response input = do
    block_id ← assert_clipboard_positive_int32 input.block_id
    result ← assert_clipboard_int32 (or_default input.result (number (pos Schema.succeeded)))
    (if is_empty input.block_key then throw range_error else ok tt)
    keyed ← push_string_field encode [] Schema.block_confirm_key input.block_key
    identified ← push_varint_field keyed Schema.block_confirm_id (number (pos block_id))
    body ← push_nonzero_number identified Schema.block_confirm_result result
    encode_v4_envelope input.stamp false Schema.data_block_confirm_tag body
