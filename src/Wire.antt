-- ===== src/Wire.antt =====
-- shared/src/streamer/internal/protobufWire.ts: protobuf fields on bytes. A `Uint8Array` and a
-- `number[]` of bytes are lists of numbers; a text is the list of its UTF-16 code units, and the
-- `TextEncoder` is the argument `encode`. `x & (2^k - 1)`, `x >> k` and `|` on operands that share
-- no bit are written `%`, `/` and `+`. A value that JavaScript shares by reference (`subarray`) is
-- never changed by this code, so it is a copy here.
pub mod Varint
pub mod Entries
pub mod Reader
pub mod Views
pub mod Bounds
pub mod Inside
pub mod Tests
use uurc_web_new.Prelude.{
  ℕ, zero, suc, ◌+◌, ◌-◌, ◌*◌, ◌/◌, ◌%◌, ◌^◌, Bool, true, false, ◌&&◌, ◌||◌, not, Option, none,
  some, List, [], ◌∷◌, ◌++◌, length, get_elem?, take, drop, ltb, leb, ◌==◌, if◌then◌else◌, Outcome,
  ok, throw, range_error, ◌>>=◌,
}
use uurc_web_new.Prelude.Int.{ℤ, pos, negsuc, Numeric, number, bigint, inexact, to_bigint, to_int32}

-- `protobufWireType`
abbrev pub varint_type : ℕ
varint_type = 0

abbrev pub fixed64_type : ℕ
fixed64_type = 1

abbrev pub length_delimited_type : ℕ
length_delimited_type = 2

abbrev pub fixed32_type : ℕ
fixed32_type = 5

-- `STREAMER_CONTROL_DECODE_LIMITS`
abbrev pub max_control_message_bytes : ℕ
max_control_message_bytes = 2 * 1024 * 1024

abbrev pub max_fields_per_message : ℕ
max_fields_per_message = 128

abbrev pub max_length_delimited : ℕ
max_length_delimited = 1024 * 1024

abbrev pub max_cursor_image_bytes : ℕ
max_cursor_image_bytes = 512 * 1024

-- `Number.MAX_SAFE_INTEGER`
abbrev pub max_safe_integer : ℕ
max_safe_integer = 2 ^ 53 - 1

-- The groups of the do-while loop of `pushVarint`. The value falls in each round, so the value
-- itself is fuel enough: where the fuel is spent, nothing is left to write.
unfoldable pub varint_loop : ℕ → ℕ → List ℕ
varint_loop zero remaining = (remaining % 128) ∷ []
varint_loop (suc fuel) remaining =
    let more = varint_loop fuel (remaining / 128) in
    if remaining / 128 == 0 then (remaining % 128) ∷ [] else ((remaining % 128 + 128) ∷ more)

-- `pushVarint` behind its conversion to a bigint.
unfoldable pub push_bigint : List ℕ → ℤ → Outcome (List ℕ)
push_bigint bytes (pos n) = ok (bytes ++ varint_loop n n)
push_bigint bytes (negsuc n) = throw range_error

unfoldable pub push_varint : List ℕ → Numeric → Outcome (List ℕ)
push_varint bytes value = do remaining ← to_bigint value; push_bigint bytes remaining

-- `(fieldNumber << 3) | wireType`, an int32.
unfoldable pub push_field_key : List ℕ → ℕ → ℕ → Outcome (List ℕ)
push_field_key bytes field_number wire_type =
    push_varint bytes (number (to_int32 (field_number * 8 + wire_type)))

-- `value < 0 ? BigInt.asUintN(64, BigInt(value)) : value`
unfoldable pub unsigned64 : Numeric → Numeric
unsigned64 (number (negsuc n)) = bigint (pos (2 ^ 64 - 1 - n % 2 ^ 64))
unsigned64 (bigint (negsuc n)) = bigint (pos (2 ^ 64 - 1 - n % 2 ^ 64))
unsigned64 value = value

unfoldable pub push_int32_field : List ℕ → ℕ → Numeric → Outcome (List ℕ)
push_int32_field bytes field_number value = do
  keyed ← push_field_key bytes field_number varint_type
  push_varint keyed (unsigned64 value)

unfoldable pub push_varint_field : List ℕ → ℕ → Numeric → Outcome (List ℕ)
push_varint_field bytes field_number value = do
  keyed ← push_field_key bytes field_number varint_type
  push_varint keyed value

unfoldable pub push_message_field : List ℕ → ℕ → List ℕ → Outcome (List ℕ)
push_message_field bytes field_number payload = do
  keyed ← push_field_key bytes field_number length_delimited_type
  sized ← push_varint keyed (number (pos (length payload)))
  ok (sized ++ payload)

unfoldable pub push_string_field : (List ℕ → List ℕ) → List ℕ → ℕ → List ℕ → Outcome (List ℕ)
push_string_field encode bytes field_number value = do
  keyed ← push_field_key bytes field_number length_delimited_type
  sized ← push_varint keyed (number (pos (length (encode value))))
  ok (sized ++ encode value)

pub record ProtobufField : Type 0 where
  pub tag : ℕ
  pub wire_type : ℕ
  pub varint : Option ℕ
  pub data_offset : Option ℕ
  pub byte_length : Option ℕ

pub record ProtobufReadOptions : Type 0 where
  pub max_fields : Option ℕ
  pub max_length_delimited_bytes : Option ℕ
  pub reject_malformed : Bool

-- The argument's default, `{}`.
abbrev pub no_options : ProtobufReadOptions
no_options = record {
  max_fields = none;
  max_length_delimited_bytes = none;
  reject_malformed = false;
}

-- `value ?? fallback`
abbrev pub or_default {ℓ} : {A : Type ℓ} → Option A → A → A
or_default none fallback = fallback
or_default (some value) fallback = value

-- The for loop of `readProtobufVarint`: ten rounds at most.
unfoldable pub read_varint_loop : ℕ → List ℕ → ℕ → ℕ → ℕ → Option (ℕ × ℕ)
read_varint_loop zero bytes index value offset = none
read_varint_loop (suc rounds) bytes index value offset = elim (get_elem? bytes offset) [
  | none ↦ none
  | some byte ↦
      let value' = value + byte % 128 * 2 ^ (index * 7) in
      let more = read_varint_loop rounds bytes (index + 1) value' (offset + 1) in
      if index == 9 && ltb 1 byte
      then none
      else (if byte / 128 % 2 == 0 then some (value', offset + 1) else more)
]

unfoldable pub read_varint : List ℕ → ℕ → Option (ℕ × ℕ)
read_varint bytes start_offset = read_varint_loop 10 bytes 0 0 start_offset

-- How one round of `readProtobufFields` ends: with a field and the next offset, with
-- `malformed(fields, options)`, or with `undefined`.
pub data FieldRead : Type 0 where
  field_read : ProtobufField → ℕ → FieldRead
  malformed_field : FieldRead
  oversized_field : FieldRead

unfoldable pub varint_field : ℕ → ℕ → ℕ → ProtobufField
varint_field tag wire_type value = record {
  tag = tag;
  wire_type = wire_type;
  varint = some value;
  data_offset = none;
  byte_length = none;
}

unfoldable pub data_field : ℕ → ℕ → ℕ → ℕ → ProtobufField
data_field tag wire_type offset size = record {
  tag = tag;
  wire_type = wire_type;
  varint = none;
  data_offset = some offset;
  byte_length = some size;
}

unfoldable pub read_varint_payload : List ℕ → ℕ → ℕ → ℕ → FieldRead
read_varint_payload bytes tag wire_type offset = elim (read_varint bytes offset) [
  | none ↦ malformed_field
  | some (value, next) ↦ field_read (varint_field tag wire_type value) next
]

unfoldable pub read_fixed_payload : ℕ → List ℕ → ℕ → ℕ → ℕ → FieldRead
read_fixed_payload size bytes tag wire_type offset =
    if ltb (length bytes) (offset + size)
    then malformed_field
    else field_read (data_field tag wire_type offset size) (offset + size)

-- `Number(length.value)` is a safe integer exactly if the bigint is at most 2^53 - 1.
unfoldable pub read_data_payload : ℕ → List ℕ → ℕ → ℕ → ℕ → FieldRead
read_data_payload limit bytes tag wire_type offset = elim (read_varint bytes offset) [
  | none ↦ malformed_field
  | some (size, next) ↦
      if ltb max_safe_integer size || ltb (length bytes - next) size
      then malformed_field
      else (if ltb limit size
          then oversized_field
          else field_read (data_field tag wire_type next size) (next + size))
]

unfoldable pub read_payload : ℕ → List ℕ → ℕ → ℕ → ℕ → FieldRead
read_payload limit bytes tag wire_type offset =
    if wire_type == varint_type
    then read_varint_payload bytes tag wire_type offset
    else (if wire_type == fixed64_type
        then read_fixed_payload 8 bytes tag wire_type offset
        else (if wire_type == length_delimited_type
            then read_data_payload limit bytes tag wire_type offset
            else (if wire_type == fixed32_type
                then read_fixed_payload 4 bytes tag wire_type offset
                else malformed_field)))

unfoldable pub read_field : ℕ → List ℕ → ℕ → FieldRead
read_field limit bytes offset = elim (read_varint bytes offset) [
  | none ↦ malformed_field
  | some (key, next) ↦
      if (ltb max_safe_integer (key / 8) || key / 8 == 0) || ltb 0x1fffffff (key / 8)
      then malformed_field
      else read_payload limit bytes (key / 8) (key % 8) next
]

unfoldable pub malformed : List ProtobufField → ProtobufReadOptions → Option (List ProtobufField)
malformed fields options = if options.reject_malformed then none else some fields

abbrev pub fields_limit : ProtobufReadOptions → ℕ
fields_limit options = or_default options.max_fields max_fields_per_message

abbrev pub bytes_limit : ProtobufReadOptions → ℕ
bytes_limit options = or_default options.max_length_delimited_bytes max_length_delimited

-- The while loop of `readProtobufFields`. Each round moves the offset on, so as many rounds as
-- there are bytes left are enough: where the fuel is spent, no byte is left.
unfoldable pub read_loop :
    ℕ → List ℕ → ProtobufReadOptions → ℕ → List ProtobufField → Option (List ProtobufField)
read_loop zero bytes options offset fields = some fields
read_loop (suc fuel) bytes options offset fields =
    let round : Option (List ProtobufField) = elim (read_field (bytes_limit options) bytes offset) [
      | field_read field next ↦ read_loop fuel bytes options next (fields ++ (field ∷ []))
      | malformed_field ↦ malformed fields options
      | oversized_field ↦ none
    ] in
    if ltb offset (length bytes)
    then (if leb (fields_limit options) (length fields) then none else round)
    else some fields

unfoldable pub read_fields : List ℕ → ProtobufReadOptions → Option (List ProtobufField)
read_fields bytes options = read_loop (length bytes) bytes options 0 []

-- `bytes.subarray(start, start + size)`
abbrev pub subarray : List ℕ → ℕ → ℕ → List ℕ
subarray bytes start size = take size (drop start bytes)

abbrev pub field_bytes : List ℕ → Option ℕ → Option ℕ → Option (List ℕ)
field_bytes bytes (some start) (some size) = some (subarray bytes start size)
field_bytes bytes _ _ = none

unfoldable pub length_delimited_bytes : List ℕ → ProtobufField → Option (List ℕ)
length_delimited_bytes bytes field =
    if field.wire_type == length_delimited_type
    then field_bytes bytes field.data_offset field.byte_length
    else none

abbrev pub is_eight : Option ℕ → Bool
is_eight none = false
is_eight (some size) = size == 8

unfoldable pub fixed64_bytes : List ℕ → ProtobufField → Option (List ℕ)
fixed64_bytes bytes field =
    if field.wire_type == fixed64_type && is_eight field.byte_length
    then field_bytes bytes field.data_offset field.byte_length
    else none
