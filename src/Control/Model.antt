-- ===== src/Control/Model.antt =====
-- controlChannelDecode.ts: what it returns, what it takes of the platform, and its assignments. The
-- objects that it fills in are records.
use uurc_web_new.Prelude.{ℕ, ◌^◌, Bool, Option, none, some, List, [], ◌∷◌, ltb, leb, if◌then◌else◌}
use uurc_web_new.Prelude.Int.{ℤ, Numeric, to_int32}
use uurc_web_new.Wire.{or_default, max_safe_integer}
use uurc_web_new.Control.Schema.{FlagName, RomMessageType, CaptureType, ActionName}

-- What `JSON.parse(args)` and the property `seq` of its result are: no JSON, no number or string, or
-- one of these.
pub data SeqValue : Type 0 where
  unparsable no_seq : SeqValue
  number_seq : Numeric → SeqValue
  text_seq : List ℕ → SeqValue

-- `decode_text` is the `TextDecoder` that is not fatal; `search_seq` the digits that
-- `/"seq"\s*:\s*(\d+)/` finds; the last two are `getFloat64(0, true)` and `Number.isFinite`.
pub record Platform : Type 1 where
  pub Double : Type 0
  pub decode_text : List ℕ → List ℕ
  pub parse_seq : List ℕ → SeqValue
  pub search_seq : List ℕ → Option (List ℕ)
  pub get_float64 : List ℕ → Double
  pub is_finite : Double → Bool

abbrev pub foldl {ℓ} : {A : Type ℓ} {B : Type 0} → (A → B → A) → A → List B → A
foldl step a [] = a
foldl step a (b ∷ bs) = foldl step (step a b) bs

pub record SimpleAction : Type 0 where
  pub action : ℕ
  pub action_name : Option ActionName
  pub args : Option (List ℕ)
  pub seq : Option ℤ
  pub feature_flags : Option (FlagName → Option ℕ)

pub record CaptureChange : Type 0 where
  pub capture_type : ℕ
  pub capture_type_named : Option CaptureType
  pub capture_id : Option ℕ
  pub desc : Option (List ℕ)

pub record SendToRom : Type 0 where
  pub input_type : ℕ
  pub input_type_name : Option RomMessageType
  pub input_message : Option (List ℕ)
  pub display_id : Option ℕ

pub record RomMessage : Type 0 where
  pub name : Option (List ℕ)
  pub value : Option (List ℕ)
  pub display_id : Option ℕ
  pub byte_value_length : Option ℕ

pub record CursorShape (D : Type 0) : Type 0 where
  pub pos_x : Option ℤ
  pub pos_y : Option ℤ
  pub width : Option ℤ
  pub height : Option ℤ
  pub byte_value : Option (List ℕ)
  pub cursor_type : Option ℤ
  pub coordinate_x_scale : Option D
  pub coordinate_y_scale : Option D
  pub screen_id : Option ℤ

-- `systemStateChange` is the cursor's shape in a record of its own.
pub record ControlMessage (D : Type 0) : Type 0 where
  pub sequence : Option ℕ
  pub timestamp_ms : Option ℕ
  pub byte_length : ℕ
  pub top_level_tags : List ℕ
  pub simple_action : Option SimpleAction
  pub capture_change : Option CaptureChange
  pub rom_message : Option RomMessage
  pub send_to_rom : Option SendToRom
  pub system_state_change : Option (Option (CursorShape D))

-- `safeNumber`
abbrev pub safe_number : ℕ → Option ℕ
safe_number value = if leb value max_safe_integer then some value else none

-- `decodeProtobufInt32`: `BigInt.asIntN(32, value)`
abbrev pub decode_int32 : ℕ → Option ℤ
decode_int32 value = if ltb value (2 ^ 64) then some (to_int32 value) else none

-- `if (field.varint !== undefined) target = safeNumber(field.varint)`, and with `?? target`.
abbrev pub put_safe : Option ℕ → Option ℕ → Option ℕ
put_safe old none = old
put_safe old (some v) = safe_number v

abbrev pub put_safe_or : ℕ → Option ℕ → ℕ
put_safe_or old none = old
put_safe_or old (some v) = or_default (safe_number v) old

-- `if (value) target = value`
abbrev pub put {ℓ} : {A : Type ℓ} → Option A → Option A → Option A
put old none = old
put old (some a) = some a
