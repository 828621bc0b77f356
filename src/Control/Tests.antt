-- ===== src/Control/Tests.antt =====
-- An input message, encoded and decoded, and a cursor. The platform is that of texts whose units are
-- bytes.
use uurc_web_new.Prelude.{ℕ, ◌≤◌, ◌≡◌, refl, true, none, some, List, [], ◌∷◌, length, ok, arith}
use uurc_web_new.Prelude.Int.{pos, number, bigint, to_int32}
use uurc_web_new.Wire.{
  read_fields, read_loop, read_field, read_varint, read_varint_loop, read_payload,
  read_varint_payload, read_data_payload, data_field, varint_field, length_delimited_bytes,
  max_cursor_image_bytes,
}
use uurc_web_new.Control.Encode.{InputMessage, encode_rom_message}
use uurc_web_new.Control.Model.{Platform, no_seq, CursorShape}
use uurc_web_new.Control.Decode.{decode_control_message, no_message, decode_cursor_shape, no_cursor}
use uurc_web_new.Control.RoundTrip.{rom_of, decode-encode_rom_message}
use uurc_web_new.Control.Cursor.{decode_cursor_shape-bound}

abbrev bytes_platform : Platform
bytes_platform = record {
  Double = ℕ;
  decode_text = λ b. b;
  parse_seq = λ _. no_seq;
  search_seq = λ _. none;
  get_float64 = length;
  is_finite = λ _. true;
}

abbrev tap : InputMessage
tap = record {
  sequence = bigint (pos 300);
  timestamp_ms = number (pos 4);
  input_message = 104 ∷ 105 ∷ [];
  display_id = some 2;
}

decode-encode_rom_message_example :
    (bytes : List ℕ) × (encode_rom_message (λ t. t) tap 1 ≡ ok bytes)
    × (decode_control_message bytes_platform bytes
        ≡ some (record (no_message bytes_platform (length bytes) (1 ∷ 2 ∷ 11 ∷ [])) {
          sequence = some 300;
          timestamp_ms = some 4;
          send_to_rom = some (rom_of bytes_platform (λ t. t) 1 (104 ∷ 105 ∷ []) 2);
        }))
decode-encode_rom_message_example =
    decode-encode_rom_message bytes_platform (λ t. t) tap 1 (omega arith) (omega arith)
      (omega arith) (omega arith) refl (omega arith)

abbrev cursor_bytes : List ℕ
cursor_bytes = 8 ∷ 3 ∷ 42 ∷ 2 ∷ 7 ∷ 9 ∷ []

abbrev cursor : CursorShape ℕ
cursor = record (no_cursor bytes_platform) { pos_x = some (pos 3); byte_value = some (7 ∷ 9 ∷ []) }

decoded_cursor : decode_cursor_shape bytes_platform cursor_bytes ≡ some cursor
unfolding decode_cursor_shape read_fields read_loop read_field read_varint read_varint_loop
    read_payload read_varint_payload read_data_payload length_delimited_bytes data_field
    varint_field to_int32
decoded_cursor = refl

decode_cursor_shape-bound_example : 2 ≤ max_cursor_image_bytes
decode_cursor_shape-bound_example =
    decode_cursor_shape-bound bytes_platform cursor_bytes (7 ∷ 9 ∷ []) cursor decoded_cursor refl
