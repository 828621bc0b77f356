-- ===== src/Control/Decode.antt =====
-- controlChannelDecode.ts. A loop over a message's fields is a fold of what one field does, which
-- depends on its number, its varint, its bytes and its length.
use uurc_web_new.Prelude.{
  ℕ, ◌+◌, ◌-◌, ◌*◌, Bool, true, false, ◌&&◌, Option, none, some, List, [], ◌∷◌, map, length, ltb,
  leb, ◌==◌, if◌then◌else◌,
}
use uurc_web_new.Prelude.Options.{◌>>=◌}
use uurc_web_new.Prelude.Int.{ℤ, pos, negsuc, Numeric, number}
use uurc_web_new.Wire.{
  ProtobufField, no_options, read_fields, length_delimited_bytes, fixed64_bytes,
  length_delimited_type, max_safe_integer, max_control_message_bytes, max_cursor_image_bytes,
}
use uurc_web_new.Control.Schema
use uurc_web_new.Control.Schema.{
  FlagName, flag_tag, rom_message_type_name, capture_type_name, simple_action_name,
}
use uurc_web_new.Control.Model.{
  Platform, unparsable, no_seq, number_seq, text_seq, foldl, SimpleAction, CaptureChange, SendToRom,
  RomMessage, CursorShape, ControlMessage, safe_number, decode_int32, put_safe, put_safe_or, put,
}

-- `Number.isSafeInteger`, of the numbers of JSON.
abbrev pub safe_integer : Numeric → Option ℤ
safe_integer (number (pos n)) = if leb n max_safe_integer then some (pos n) else none
safe_integer (number (negsuc n)) = if ltb n max_safe_integer then some (negsuc n) else none
safe_integer _ = none

-- `/^\d+$/` and `Number`, of the decimal digits.
abbrev pub is_digit : ℕ → Bool
is_digit c = leb 48 c && leb c 57

abbrev pub all_digits : List ℕ → Bool
all_digits [] = true
all_digits (c ∷ cs) = is_digit c && all_digits cs

abbrev pub is_number_text : List ℕ → Bool
is_number_text [] = false
is_number_text (c ∷ cs) = all_digits (c ∷ cs)

abbrev pub digits_value : ℕ → List ℕ → ℕ
digits_value acc [] = acc
digits_value acc (c ∷ cs) = digits_value (acc * 10 + (c - 48)) cs

abbrev pub safe_digits : List ℕ → Option ℤ
safe_digits digits = safe_integer (number (pos (digits_value 0 digits)))

abbrev pub flags_step : (FlagName → Option ℕ) → ProtobufField → FlagName → Option ℕ
flags_step flags field name =
    if flag_tag name == field.tag
    then elim field.varint [ none ↦ flags name | some v ↦ put (flags name) (safe_number v) ]
    else flags name

unfoldable pub decode_feature_flags : List ℕ → Option (FlagName → Option ℕ)
decode_feature_flags bytes = do
  fields ← read_fields bytes no_options
  some (foldl flags_step (λ _. none) fields)

-- `assignCursorInt32`
abbrev pub assign_cursor_int32 : {D : Type 0} → CursorShape D → ℕ → Option ℤ → CursorShape D
assign_cursor_int32 shape tag value = record shape {
  pos_x = if tag == 1 then put shape.pos_x value else shape.pos_x;
  pos_y = if tag == 2 then put shape.pos_y value else shape.pos_y;
  width = if tag == 3 then put shape.width value else shape.width;
  height = if tag == 4 then put shape.height value else shape.height;
  cursor_type = if tag == 6 then put shape.cursor_type value else shape.cursor_type;
  screen_id = if tag == 9 then put shape.screen_id value else shape.screen_id;
}

abbrev pub at_most : ℕ → Option ℕ → Bool
at_most limit none = false
at_most limit (some n) = leb n limit

module _ (platform : Platform) where
  abbrev pub text : Option (List ℕ) → Option (List ℕ)
  text none = none
  text (some bytes) = some (platform.decode_text bytes)

  -- `readActionSequence`
  unfoldable pub read_action_sequence : List ℕ → Option ℤ
  read_action_sequence args = elim (platform.parse_seq args) [
    | unparsable ↦ (do digits ← platform.search_seq args; safe_digits digits)
    | no_seq ↦ none
    | number_seq x ↦ safe_integer x
    | text_seq t ↦ if is_number_text t then safe_digits t else none
  ]

  -- The locals of `decodeSimpleAction`.
  pub record ActionParts : Type 0 where
    pub action : ℕ
    pub args : Option (List ℕ)
    pub feature_flags : Option (FlagName → Option ℕ)

  abbrev pub action_args : Option (List ℕ) → ActionParts → ActionParts
  action_args value parts = record parts { args = put parts.args (text value) }

  abbrev pub action_flags : Option (List ℕ) → ActionParts → ActionParts
  action_flags none parts = parts
  action_flags (some value) parts = record parts { feature_flags = decode_feature_flags value }

  abbrev pub action_step : ActionParts → ℕ → Option ℕ → Option (List ℕ) → ActionParts
  action_step parts tag varint value =
      if tag == Schema.action_tag
      then record parts { action = put_safe_or parts.action varint }
      else (if tag == Schema.args_tag
          then action_args value parts
          else (if tag == Schema.feature_flag_tag then action_flags value parts else parts))

  unfoldable pub decode_simple_action : List ℕ → Option SimpleAction
  decode_simple_action bytes = do
    fields ← read_fields bytes no_options
    let parts =
        foldl (λ d f. action_step d f.tag f.varint (length_delimited_bytes bytes f))
          (record { action = 0; args = none; feature_flags = none }) fields
    some (record {
      action = parts.action;
      action_name = simple_action_name parts.action;
      args = parts.args;
      seq = parts.args >>= read_action_sequence;
      feature_flags = parts.feature_flags;
    })

  abbrev pub capture_step : CaptureChange → ℕ → Option ℕ → Option (List ℕ) → CaptureChange
  capture_step parts tag varint value = record parts {
    capture_type = if tag == 1 then put_safe_or parts.capture_type varint else parts.capture_type;
    capture_id = if tag == 2 then put_safe parts.capture_id varint else parts.capture_id;
    desc = if tag == 3 then put parts.desc (text value) else parts.desc;
  }

  unfoldable pub decode_capture_change : List ℕ → Option CaptureChange
  decode_capture_change bytes = do
    fields ← read_fields bytes no_options
    let parts =
        foldl (λ d f. capture_step d f.tag f.varint (length_delimited_bytes bytes f))
          (record { capture_type = 0; capture_type_named = none; capture_id = none; desc = none })
          fields
    some (record parts { capture_type_named = capture_type_name parts.capture_type })

  abbrev pub send_to_rom_step : SendToRom → ℕ → Option ℕ → Option (List ℕ) → SendToRom
  send_to_rom_step parts tag varint value =
      if tag == Schema.input_type_tag
      then record parts { input_type = put_safe_or parts.input_type varint }
      else (if tag == Schema.input_message_tag
          then record parts { input_message = put parts.input_message (text value) }
          else (if tag == Schema.input_display_tag
              then record parts { display_id = put_safe parts.display_id varint }
              else parts))

  unfoldable pub decode_send_to_rom : List ℕ → Option SendToRom
  decode_send_to_rom bytes = do
    fields ← read_fields bytes no_options
    let parts =
        foldl (λ d f. send_to_rom_step d f.tag f.varint (length_delimited_bytes bytes f))
          (record {
            input_type = 0;
            input_type_name = none;
            input_message = none;
            display_id = none;
          })
          fields
    some (record parts { input_type_name = rom_message_type_name parts.input_type })

  abbrev pub rom_message_step : RomMessage → ProtobufField → Option (List ℕ) → RomMessage
  rom_message_step parts field value = record parts {
    name = if field.tag == Schema.rom_name_tag then put parts.name (text value) else parts.name;
    value = if field.tag == Schema.rom_value_tag then put parts.value (text value) else parts.value;
    display_id =
        if field.tag == Schema.rom_display_tag
        then put_safe parts.display_id field.varint
        else parts.display_id;
    byte_value_length =
        if field.tag == Schema.rom_bytes_tag && field.wire_type == length_delimited_type
        then put parts.byte_value_length field.byte_length
        else parts.byte_value_length;
  }

  unfoldable pub decode_rom_message : List ℕ → Option RomMessage
  decode_rom_message bytes = do
    fields ← read_fields bytes no_options
    some (
        foldl (λ d f. rom_message_step d f (length_delimited_bytes bytes f))
          (record { name = none; value = none; display_id = none; byte_value_length = none })
          fields)

  abbrev pub finite : platform.Double → Option platform.Double
  finite value = if platform.is_finite value then some value else none

  -- `readDoubleField`
  unfoldable pub read_double_field : List ℕ → ProtobufField → Option platform.Double
  read_double_field bytes field = do
    encoded ← fixed64_bytes bytes field
    finite (platform.get_float64 encoded)

  abbrev pub cursor_bytes_step :
      List ℕ → ProtobufField → CursorShape platform.Double → CursorShape platform.Double
  cursor_bytes_step bytes field shape = record shape {
    byte_value =
        if field.tag == 5 && at_most max_cursor_image_bytes field.byte_length
        then put shape.byte_value (length_delimited_bytes bytes field)
        else shape.byte_value;
    coordinate_x_scale =
        if field.tag == 7
        then put shape.coordinate_x_scale (read_double_field bytes field)
        else shape.coordinate_x_scale;
    coordinate_y_scale =
        if field.tag == 8
        then put shape.coordinate_y_scale (read_double_field bytes field)
        else shape.coordinate_y_scale;
  }

  abbrev pub cursor_step :
      List ℕ → CursorShape platform.Double → ProtobufField → CursorShape platform.Double
  cursor_step bytes shape field =
      cursor_bytes_step bytes field
        (assign_cursor_int32 shape field.tag (do v ← field.varint; decode_int32 v))

  abbrev pub no_cursor : CursorShape platform.Double
  no_cursor = record {
    pos_x = none;
    pos_y = none;
    width = none;
    height = none;
    byte_value = none;
    cursor_type = none;
    coordinate_x_scale = none;
    coordinate_y_scale = none;
    screen_id = none;
  }

  unfoldable pub decode_cursor_shape : List ℕ → Option (CursorShape platform.Double)
  decode_cursor_shape bytes = do
    fields ← read_fields bytes no_options
    some (foldl (cursor_step bytes) no_cursor fields)

  abbrev pub system_state_step :
      Option (CursorShape platform.Double)
      → ℕ
      → Option (List ℕ)
      → Option (CursorShape platform.Double)
  system_state_step old tag none = old
  system_state_step old tag (some value) =
      if tag == Schema.cursor_shape_tag then decode_cursor_shape value else old

  unfoldable pub decode_system_state_change : List ℕ → Option (Option (CursorShape platform.Double))
  decode_system_state_change bytes = do
    fields ← read_fields bytes no_options
    some (foldl (λ d f. system_state_step d f.tag (length_delimited_bytes bytes f)) none fields)

  abbrev pub nested_step :
      ControlMessage platform.Double → ℕ → Option (List ℕ) → ControlMessage platform.Double
  nested_step decoded tag none = decoded
  nested_step decoded tag (some nested) =
      if tag == Schema.simple_action_tag
      then record decoded { simple_action = decode_simple_action nested }
      else (if tag == 8
          then record decoded { capture_change = decode_capture_change nested }
          else (if tag == Schema.rom_message_tag
              then record decoded { rom_message = decode_rom_message nested }
              else (if tag == Schema.send_to_rom_tag
                  then record decoded { send_to_rom = decode_send_to_rom nested }
                  else (if tag == Schema.system_state_tag
                      then record decoded {
                        system_state_change = decode_system_state_change nested;
                      }
                      else decoded))))

  abbrev pub control_step :
      ControlMessage platform.Double
      → ℕ
      → Option ℕ
      → Option (List ℕ)
      → ControlMessage platform.Double
  control_step decoded tag varint nested =
      nested_step
        (record decoded {
          sequence = if tag == 1 then put_safe decoded.sequence varint else decoded.sequence;
          timestamp_ms =
              if tag == 2 then put_safe decoded.timestamp_ms varint else decoded.timestamp_ms;
        })
        tag nested

  abbrev pub no_message : ℕ → List ℕ → ControlMessage platform.Double
  no_message size tags = record {
    sequence = none;
    timestamp_ms = none;
    byte_length = size;
    top_level_tags = tags;
    simple_action = none;
    capture_change = none;
    rom_message = none;
    send_to_rom = none;
    system_state_change = none;
  }

  unfoldable pub decode_control_message : List ℕ → Option (ControlMessage platform.Double)
  decode_control_message bytes = if ltb max_control_message_bytes (length bytes) then none else (do
    fields ← read_fields bytes no_options
    some (
        foldl (λ d f. control_step d f.tag f.varint (length_delimited_bytes bytes f))
          (no_message (length bytes) (map (λ f. f.tag) fields)) fields))
