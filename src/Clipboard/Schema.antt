-- ===== src/Clipboard/Schema.antt =====
-- Limits, field numbers and result codes of the clipboard messages (clipboardProtocol.ts and
-- internal/clipboardSchema.ts).
use uurc_web_new.Prelude.{ℕ, ◌-◌, some, true}
use uurc_web_new.Wire.{ProtobufReadOptions}

-- `STREAMER_CLIPBOARD_DECODE_LIMITS`
abbrev pub max_message_bytes : ℕ
max_message_bytes = 0x80000

abbrev pub max_text_bytes : ℕ
max_text_bytes = 0x80000 - 256

-- The options of `readClipboardFields`.
abbrev pub clipboard_options : ProtobufReadOptions
clipboard_options = record {
  max_fields = some 32;
  max_length_delimited_bytes = some max_message_bytes;
  reject_malformed = true;
}

abbrev pub max_signed_int64 : ℕ
max_signed_int64 = 0x7fffffffffffffff

abbrev pub max_signed_int32 : ℕ
max_signed_int32 = 0x7fffffff

-- `STREAMER_CLIPBOARD_FORMATS`, `STREAMER_CLIPBOARD_RESULTS`
abbrev pub text_format : ℕ
text_format = 1

abbrev pub unicode_text_format : ℕ
unicode_text_format = 13

abbrev pub succeeded : ℕ
succeeded = 1

-- `STREAMER_CLIPBOARD_RPC_WIRE_FIELDS`
abbrev pub sequence_tag : ℕ
sequence_tag = 1

abbrev pub timestamp_ms_tag : ℕ
timestamp_ms_tag = 2

abbrev pub rpc_request_tag : ℕ
rpc_request_tag = 21

abbrev pub rpc_response_tag : ℕ
rpc_response_tag = 22

abbrev pub header_tag : ℕ
header_tag = 1

abbrev pub request_id_tag : ℕ
request_id_tag = 1

abbrev pub text_change_request_tag : ℕ
text_change_request_tag = 10

abbrev pub text_change_response_tag : ℕ
text_change_response_tag = 6

abbrev pub format_id_tag : ℕ
format_id_tag = 1

abbrev pub text_tag : ℕ
text_tag = 2

abbrev pub text_change_result_tag : ℕ
text_change_result_tag = 1

-- `STREAMER_CLIPBOARD_V4_RPC_WIRE_FIELDS`
abbrev pub clip_request_tag : ℕ
clip_request_tag = 9

abbrev pub clip_response_tag : ℕ
clip_response_tag = 5

abbrev pub format_data_ask_tag : ℕ
format_data_ask_tag = 2

abbrev pub data_block_tag : ℕ
data_block_tag = 3

abbrev pub format_data_confirm_tag : ℕ
format_data_confirm_tag = 2

abbrev pub data_block_confirm_tag : ℕ
data_block_confirm_tag = 3

-- `formatDataAsk`
abbrev pub ask_format_id : ℕ
ask_format_id = 1

abbrev pub ask_block_key : ℕ
ask_block_key = 2

abbrev pub ask_format_name : ℕ
ask_format_name = 3

-- `formatDataConfirm`
abbrev pub format_confirm_result : ℕ
format_confirm_result = 1

abbrev pub format_confirm_block_key : ℕ
format_confirm_block_key = 2

abbrev pub format_confirm_block_count : ℕ
format_confirm_block_count = 3

-- `dataBlock`
abbrev pub data_block_key : ℕ
data_block_key = 1

abbrev pub data_block_id : ℕ
data_block_id = 2

abbrev pub data_block_content : ℕ
data_block_content = 3

-- `dataBlockConfirm`
abbrev pub block_confirm_key : ℕ
block_confirm_key = 1

abbrev pub block_confirm_id : ℕ
block_confirm_id = 2

abbrev pub block_confirm_result : ℕ
block_confirm_result = 3
