-- ===== src/Control/Schema.antt =====
-- Field numbers and constants of the control channel: internal/controlChannelSchema.ts and
-- controlChannelProtocol.ts.
use uurc_web_new.Prelude.{ℕ, List, [], ◌∷◌, Option, none, some, ◌==◌, if◌then◌else◌}

-- `STREAMER_SEND_TO_ROM_WIRE_FIELDS`
abbrev pub send_to_rom_tag : ℕ
send_to_rom_tag = 11

abbrev pub input_type_tag : ℕ
input_type_tag = 1

abbrev pub input_message_tag : ℕ
input_message_tag = 2

abbrev pub input_display_tag : ℕ
input_display_tag = 3

-- `STREAMER_ROM_MESSAGE_WIRE_FIELDS`
abbrev pub rom_message_tag : ℕ
rom_message_tag = 10

abbrev pub rom_name_tag : ℕ
rom_name_tag = 1

abbrev pub rom_value_tag : ℕ
rom_value_tag = 2

abbrev pub rom_display_tag : ℕ
rom_display_tag = 3

abbrev pub rom_bytes_tag : ℕ
rom_bytes_tag = 4

-- `STREAMER_SIMPLE_ACTION_WIRE_FIELDS`
abbrev pub simple_action_tag : ℕ
simple_action_tag = 3

abbrev pub action_tag : ℕ
action_tag = 1

abbrev pub args_tag : ℕ
args_tag = 2

abbrev pub feature_flag_tag : ℕ
feature_flag_tag = 4

-- `STREAMER_SYSTEM_STATE_CHANGE_WIRE_FIELDS`
abbrev pub system_state_tag : ℕ
system_state_tag = 15

abbrev pub cursor_shape_tag : ℕ
cursor_shape_tag = 2

-- `STREAMER_ROM_MESSAGE_TYPES`: the names and their values.
pub data RomMessageType : Type 0 where
  rom_vinput rom_text rom_snapshot rom_tab_manage rom_rotation rom_volume : RomMessageType

abbrev pub rom_message_type_name : ℕ → Option RomMessageType
rom_message_type_name value =
    if value == 0
    then some rom_vinput
    else (if value == 1
        then some rom_text
        else (if value == 2
            then some rom_snapshot
            else (if value == 3
                then some rom_tab_manage
                else (if value == 4
                    then some rom_rotation
                    else (if value == 5 then some rom_volume else none)))))

-- `STREAMER_CAPTURE_CHANGE_TYPES`
pub data CaptureType : Type 0 where
  ct_desktop ct_window ct_mumu ct_hook ct_none : CaptureType

abbrev pub capture_type_name : ℕ → Option CaptureType
capture_type_name value =
    if value == 0
    then some ct_desktop
    else (if value == 1
        then some ct_window
        else (if value == 2
            then some ct_mumu
            else (if value == 3
                then some ct_hook
                else (if value == 99 then some ct_none else none))))

-- `STREAMER_SIMPLE_ACTION_TYPES`
pub data ActionName : Type 0 where
  echo_request echo_response : ActionName

abbrev pub simple_action_name : ℕ → Option ActionName
simple_action_name action =
    if action == 0 then some echo_request else (if action == 1 then some echo_response else none)

-- `STREAMER_SIMPLE_ACTION_FEATURE_FLAG_FIELDS`
pub data FlagName : Type 0 where
  use_clipboard auto_clipboard enable_key_mouse enable_gamepad enable_touch enable_ime
        enable_display_control :
      FlagName

abbrev pub flag_tag : FlagName → ℕ
flag_tag use_clipboard = 1
flag_tag auto_clipboard = 2
flag_tag enable_key_mouse = 3
flag_tag enable_gamepad = 4
flag_tag enable_touch = 6
flag_tag enable_ime = 7
flag_tag enable_display_control = 8

abbrev pub flag_fields : List FlagName
flag_fields =
    use_clipboard ∷ auto_clipboard ∷ enable_key_mouse ∷ enable_gamepad ∷ enable_touch ∷ enable_ime
    ∷ enable_display_control ∷ []
