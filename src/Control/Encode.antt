-- ===== src/Control/Encode.antt =====
-- controlChannelEncode.ts. The `TextEncoder` is the argument `encode`; `decimal` is `toString` of a
-- bigint. A flag's value is an integer, as the type of the defaults has it.
use uurc_web_new.Prelude.{
  ℕ, Option, none, some, List, [], ◌∷◌, ◌++◌, ◌==◌, if◌then◌else◌, Outcome, ok, ◌>>=◌,
}
use uurc_web_new.Prelude.Int.{ℤ, pos, negsuc, Numeric, number, to_bigint}
use uurc_web_new.Wire.{
  push_varint_field, push_message_field, push_string_field, push_int32_field, or_default,
}
use uurc_web_new.Control.Schema
use uurc_web_new.Control.Schema.{
  FlagName, flag_tag, flag_fields, use_clipboard, auto_clipboard, enable_key_mouse, enable_gamepad,
  enable_touch, enable_ime, enable_display_control,
}

-- `Partial<Record<name, number>>`
abbrev pub FeatureFlags : Type 0
FeatureFlags = FlagName → Option ℤ

-- `STREAMER_DEFAULT_SIMPLE_ACTION_FEATURE_FLAGS`
abbrev pub default_flags : FeatureFlags
default_flags use_clipboard = some (pos 2)
default_flags auto_clipboard = some (pos 1)
default_flags enable_key_mouse = some (pos 2)
default_flags enable_gamepad = some (pos 2)
default_flags enable_touch = some (pos 2)
default_flags enable_ime = some (pos 2)
default_flags enable_display_control = some (pos 3)

pub record InputMessage : Type 0 where
  pub sequence : Numeric
  pub timestamp_ms : Numeric
  pub input_message : List ℕ
  pub display_id : Option ℕ

-- `EchoRequestInput` and `EchoResponseInput`.
pub record EchoInput : Type 0 where
  pub sequence : Numeric
  pub timestamp_ms : Numeric
  pub feature_flags : Option FeatureFlags

-- `encodeEnvelope`
unfoldable pub encode_envelope : Numeric → Numeric → ℕ → List ℕ → Outcome (List ℕ)
encode_envelope sequence timestamp_ms tag body = do
  sequenced ← push_varint_field [] 1 sequence
  stamped ← push_varint_field sequenced 2 timestamp_ms
  push_message_field stamped tag body

-- `if (value) pushInt32Field(bytes, field.tag, value)`
abbrev pub push_flag : List ℕ → ℕ → ℤ → Outcome (List ℕ)
push_flag bytes tag (pos n) =
    if n == 0 then ok bytes else push_int32_field bytes tag (number (pos n))
push_flag bytes tag (negsuc n) = push_int32_field bytes tag (number (negsuc n))

unfoldable pub push_flags : FeatureFlags → List FlagName → List ℕ → Outcome (List ℕ)
push_flags flags [] bytes = ok bytes
push_flags flags (name ∷ names) bytes = do
  pushed ← push_flag bytes (flag_tag name) (or_default (flags name) (pos 0))
  push_flags flags names pushed

unfoldable pub encode_feature_flags : FeatureFlags → Outcome (List ℕ)
encode_feature_flags flags = push_flags flags flag_fields []

abbrev pub push_display : List ℕ → Option ℕ → Outcome (List ℕ)
push_display bytes none = ok bytes
push_display bytes (some n) =
    if n == 0 then ok bytes else push_varint_field bytes Schema.input_display_tag (number (pos n))

abbrev pub push_input_type : List ℕ → ℕ → Outcome (List ℕ)
push_input_type bytes n =
    if n == 0 then ok bytes else push_varint_field bytes Schema.input_type_tag (number (pos n))

-- `if (actionType !== ACTION_TYPE_ECHO_REQUEST) pushVarintField(...)`
abbrev pub push_action : List ℕ → ℕ → Outcome (List ℕ)
push_action bytes n =
    if n == 0 then ok bytes else push_varint_field bytes Schema.action_tag (number (pos n))

module _ (encode : List ℕ → List ℕ) where
  abbrev pub push_input_text : List ℕ → List ℕ → Outcome (List ℕ)
  push_input_text bytes [] = ok bytes
  push_input_text bytes (c ∷ cs) = push_string_field encode bytes Schema.input_message_tag (c ∷ cs)

  unfoldable pub encode_rom_message : InputMessage → ℕ → Outcome (List ℕ)
  encode_rom_message input input_type = do
    typed ← push_input_type [] input_type
    worded ← push_input_text typed input.input_message
    body ← push_display worded input.display_id
    encode_envelope input.sequence input.timestamp_ms Schema.send_to_rom_tag body

  unfoldable pub encode_input_message : InputMessage → Outcome (List ℕ)
  encode_input_message input = encode_rom_message input 0

  unfoldable pub encode_text_message : InputMessage → Outcome (List ℕ)
  encode_text_message input = encode_rom_message input 1

  unfoldable pub encode_simple_action : EchoInput → ℕ → List ℕ → Outcome (List ℕ)
  encode_simple_action input action args = do
    typed ← push_action [] action
    worded ← push_string_field encode typed Schema.args_tag args
    flags ← encode_feature_flags (or_default input.feature_flags default_flags)
    body ← push_message_field worded Schema.feature_flag_tag flags
    encode_envelope input.sequence input.timestamp_ms Schema.simple_action_tag body

  module _ (decimal : ℤ → List ℕ) where
    -- The characters of `{"seq":` and `}`.
    abbrev pub seq_args : ℤ → List ℕ
    seq_args n = (123 ∷ 34 ∷ 115 ∷ 101 ∷ 113 ∷ 34 ∷ 58 ∷ []) ++ decimal n ++ 125 ∷ []

    unfoldable pub encode_echo_request : EchoInput → Outcome (List ℕ)
    encode_echo_request input = do
      n ← to_bigint input.sequence
      encode_simple_action input 0 (seq_args n)

    unfoldable pub encode_echo_response : EchoInput → Numeric → Outcome (List ℕ)
    encode_echo_response input response_sequence = do
      n ← to_bigint response_sequence
      encode_simple_action input 1 (seq_args n)
