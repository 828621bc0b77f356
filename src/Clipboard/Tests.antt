-- ===== src/Clipboard/Tests.antt =====
-- A clipboard request, encoded and decoded. The codec takes the units for bytes and drops a byte order
-- mark from the front.
use uurc_web_new.Prelude.{
  ℕ, ◌≤◌, ◌≡◌, refl, Option, none, some, List, [], ◌∷◌, ok, ◌↔◌, arith, if◌then◌else◌, ◌==◌,
  ne→==-false,
}
use uurc_web_new.Prelude.Int.{pos, number, bigint, to_int32}
use uurc_web_new.Prelude.Text.{TextCodec, byte_order_mark, StartsNoMark}
use uurc_web_new.Clipboard.Schema.{max_text_bytes}
use uurc_web_new.Wire.{
  push_varint_field, push_field_key, push_varint, push_bigint, push_string_field,
  push_message_field, varint_loop,
}
use uurc_web_new.Clipboard.Encode.{
  ClipboardStamp, TextChangeRequestInput, encode_text_change_request, assert_clipboard_int32,
  encode_clipboard_rpc_envelope, checked_int64,
}
use uurc_web_new.Clipboard.Decode.{decode_clipboard_message, text_change_request}
use uurc_web_new.Clipboard.RoundTrip.{
  decode-encode_text_change_request, metadata_of_stamp, format_of,
}
use uurc_web_new.Clipboard.Room.{IsInt64, IsInt32, encode_text_change_request_iff}

abbrev decode_units : List ℕ → Option (List ℕ)
decode_units [] = some []
decode_units (c ∷ cs) = if c == byte_order_mark then some cs else some (c ∷ cs)

decode_units-unmarked : (text : List ℕ) → StartsNoMark text → decode_units text ≡ some text
decode_units-unmarked [] unmarked = refl
decode_units-unmarked (c ∷ cs) unmarked = rw (ne→==-false c byte_order_mark unmarked) refl

abbrev plain : TextCodec
plain = record {
  encode = λ t. t;
  decode = decode_units;
  IsWellFormed = λ _. Unit;
  nil-IsWellFormed = tt;
  encode_nil = refl;
  decode-encode = λ text _. decode_units-unmarked text;
}

abbrev stamp : ClipboardStamp
stamp = record {
  sequence = bigint (pos 3);
  timestamp_ms = number (pos 4);
  request_id = number (pos 5);
}

abbrev hello : TextChangeRequestInput
hello = record { stamp = stamp; text = 104 ∷ 105 ∷ []; format_id = none }

abbrev hello_bytes : List ℕ
hello_bytes =
    8 ∷ 3 ∷ 16 ∷ 4 ∷ 170 ∷ 1 ∷ 12 ∷ 10 ∷ 2 ∷ 8 ∷ 5 ∷ 82 ∷ 6 ∷ 8 ∷ 1 ∷ 18 ∷ 2 ∷ 104 ∷ 105 ∷ []

encoded_hello : encode_text_change_request plain.encode hello ≡ ok hello_bytes
unfolding encode_text_change_request assert_clipboard_int32 push_varint_field push_field_key
    push_varint push_bigint to_int32 push_string_field encode_clipboard_rpc_envelope checked_int64
    push_message_field varint_loop
encoded_hello = refl

decode-encode_text_change_request_example :
    decode_clipboard_message plain.decode hello_bytes
    ≡ some (text_change_request (metadata_of_stamp stamp) 1 (104 ∷ 105 ∷ []))
decode-encode_text_change_request_example =
    decode-encode_text_change_request plain hello hello_bytes tt (λ e. omega (arith, e))
      encoded_hello

encode_text_change_request_iff_example :
    ((bytes : List ℕ) × (encode_text_change_request plain.encode hello ≡ ok bytes)) ↔ (
      IsInt64 stamp.sequence
      × IsInt64 stamp.timestamp_ms
      × IsInt64 stamp.request_id
      × IsInt32 (format_of hello)
      × (2 ≤ max_text_bytes))
encode_text_change_request_iff_example = encode_text_change_request_iff plain.encode hello
