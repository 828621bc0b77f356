-- ===== src/Wire/Tests.antt =====
-- Runs of the protobuf writer and reader on small messages.
use uurc_web_new.Prelude.{
  ℕ, ◌+◌, ◌^◌, ◌≤◌, ◌<◌, ◌≡◌, refl, some, List, [], ◌∷◌, length, All, ok, arith,
}
use uurc_web_new.Prelude.Int.{pos, number}
use uurc_web_new.Wire.{
  ProtobufField, no_options, varint_field, data_field, push_varint, push_bigint, varint_loop,
  read_varint, read_varint_loop, read_fields, read_loop, read_field, read_payload,
  read_varint_payload, read_data_payload, bytes_limit, fields_limit,
}
use uurc_web_new.Wire.Varint.{varint_bytes, read-push_varint, varint_bytes_shape}
use uurc_web_new.Wire.Entries.{Entry, varint_entry, chunk_entry, encode_message, StandFor}
use uurc_web_new.Wire.Reader.{read_fields-message}
use uurc_web_new.Wire.Inside.{IsInside, read_loop-fuel, read_fields-IsInside}
use uurc_web_new.Wire.Bounds.{read_varint-bounds}

abbrev two_entries : List Entry
two_entries = varint_entry 1 300 ∷ chunk_entry 2 (7 ∷ 8 ∷ []) ∷ []

abbrev two_fields : List ℕ
two_fields = 8 ∷ 5 ∷ 18 ∷ 1 ∷ 7 ∷ []

push_300 : push_varint (9 ∷ []) (number (pos 300)) ≡ ok (9 ∷ 172 ∷ 2 ∷ [])
unfolding push_varint push_bigint varint_loop
push_300 = refl

read_300 : read_varint (9 ∷ 172 ∷ 2 ∷ []) 1 ≡ some (300, 3)
unfolding read_varint read_varint_loop
read_300 = refl

read_two_fields :
    read_fields two_fields no_options ≡ some (varint_field 1 0 5 ∷ data_field 2 2 4 1 ∷ [])
unfolding read_fields read_loop read_field read_varint read_varint_loop read_payload
    read_varint_payload read_data_payload
read_two_fields = refl

read-push_varint_example : read_varint (9 ∷ 172 ∷ 2 ∷ []) 1 ≡ some (300, 3)
read-push_varint_example = read-push_varint (9 ∷ []) (9 ∷ 172 ∷ 2 ∷ []) 300 (omega arith) push_300

varint_bytes_shape_example :
    All (λ b. b < 256) (varint_bytes 300)
    × (0 < length (varint_bytes 300))
    × (length (varint_bytes 300) ≤ 10)
varint_bytes_shape_example = varint_bytes_shape 300 (omega arith)

read_varint-bounds_example : (1 < 3) × (3 ≤ 1 + 10) × (3 ≤ 3) × (300 < 2 ^ 64)
read_varint-bounds_example = read_varint-bounds (9 ∷ 172 ∷ 2 ∷ []) 1 300 3 read_300

read_fields-message_example :
    (read : List ProtobufField) × (read_fields (encode_message two_entries) no_options ≡ some read)
    × StandFor (encode_message two_entries) read two_entries
read_fields-message_example = read_fields-message two_entries no_options (omega arith) (omega arith)

read_fields-IsInside_example :
    All
      (IsInside (bytes_limit no_options) two_fields)
      (varint_field 1 0 5 ∷ data_field 2 2 4 1 ∷ [])
    × (2 ≤ fields_limit no_options)
read_fields-IsInside_example =
    read_fields-IsInside two_fields no_options (varint_field 1 0 5 ∷ data_field 2 2 4 1 ∷ [])
      read_two_fields

read_loop-fuel_example :
    read_loop 5 two_fields no_options 0 [] ≡ read_loop 9 two_fields no_options 0 []
read_loop-fuel_example = read_loop-fuel 5 9 two_fields no_options 0 [] (omega arith) (omega arith)
