-- ===== src/Control/RoundTrip.antt =====
-- `encodeStreamerInputMessage` and `encodeStreamerTextMessage` against `decodeStreamerControlMessage`.
use uurc_web_new.Prelude.{
  ℕ, ◌+◌, ◌-◌, ◌^◌, ◌≤◌, ◌≡◌, refl, ap, Option, none, some, List, [], ◌∷◌, length, ◌==◌,
  if◌then◌else◌, ok, arith, All, le→leb, le→ltb-false,
}
use uurc_web_new.Wire.{no_options, or_default, max_safe_integer, max_control_message_bytes}
use uurc_web_new.Wire.Entries.{Entry, encode_message, Fits}
use uurc_web_new.Wire.Reader.{read_fields-message}
use uurc_web_new.Clipboard.Written.{value_of}
use uurc_web_new.Control.Schema.{rom_message_type_name}
use uurc_web_new.Control.Encode.{InputMessage, encode_rom_message}
use uurc_web_new.Control.Model.{Platform, SendToRom, foldl}
use uurc_web_new.Control.Decode.{
  send_to_rom_step, decode_send_to_rom, control_step, no_message, decode_control_message,
}
use uurc_web_new.Control.Fold.{entry_step, foldl-entries, tags-entries}
use uurc_web_new.Control.Written.{
  IsSafe, IsSafe-bound, rom_entries, envelope_entries, encode_rom_message-message,
  length-rom_entries, length-envelope_entries,
}

-- What the decoder makes of an empty text and of the display 0, which are not written.
abbrev pub unless_empty : List ℕ → Option (List ℕ)
unless_empty [] = none
unless_empty (c ∷ cs) = some (c ∷ cs)

abbrev pub unless_zero : ℕ → Option ℕ
unless_zero n = if n == 0 then none else some n

module _ (platform : Platform) (encode : List ℕ → List ℕ) where
  abbrev pub rom_of : ℕ → List ℕ → ℕ → SendToRom
  rom_of input_type text display = record {
    input_type = input_type;
    input_type_name = rom_message_type_name input_type;
    input_message = unless_empty text;
    display_id = unless_zero display;
  }

  rom_entries-fold :
      (input_type : ℕ) (text : List ℕ) (display : ℕ)
      → input_type ≤ max_safe_integer
      → display ≤ max_safe_integer
      → platform.decode_text (encode text) ≡ text
      → foldl
          (entry_step (send_to_rom_step platform))
          (record {
            input_type = 0;
            input_type_name = none;
            input_message = none;
            display_id = none;
          })
          (rom_entries encode input_type text display)
        ≡ record (rom_of input_type text display) { input_type_name = none }
  rom_entries-fold input_type [] display ht hd e = ground (arith, e)
  rom_entries-fold input_type (c ∷ cs) display ht hd e = ground (arith, e)

  rom_entries-Fits :
      (input_type : ℕ) (text : List ℕ) (display : ℕ)
      → input_type ≤ max_safe_integer
      → display ≤ max_safe_integer
      → length (encode text) ≤ 2 ^ 20 - 64
      → All (Fits (2 ^ 20)) (rom_entries encode input_type text display)
        × (length (rom_entries encode input_type text display) ≤ 3)
  rom_entries-Fits input_type [] display ht hd hl = ground arith
  rom_entries-Fits input_type (c ∷ cs) display ht hd hl = ground arith

  decode_send_to_rom-entries :
      (input_type : ℕ) (text : List ℕ) (display : ℕ)
      → input_type ≤ max_safe_integer
      → display ≤ max_safe_integer
      → platform.decode_text (encode text) ≡ text
      → length (encode text) ≤ 2 ^ 20 - 64
      → decode_send_to_rom platform (encode_message (rom_entries encode input_type text display))
        ≡ some (rom_of input_type text display)
  unfolding decode_send_to_rom
  decode_send_to_rom-entries input_type text display ht hd e hl =
      let es : List Entry = rom_entries encode input_type text display in
      let (fits, few) = rom_entries-Fits input_type text display ht hd hl in
      let (fs, r, st) = read_fields-message es no_options fits (omega (arith, few)) in
      rw (r, foldl-entries (send_to_rom_step platform) (encode_message es) _ fs es st)
        (ap
          (λ (parts : SendToRom).
            some (record parts { input_type_name = rom_message_type_name parts.input_type }))
          (rom_entries-fold input_type text display ht hd e))

  -- For numbers that are safe integers, and a text of at most 2 ^ 20 - 64 bytes that the platform
  -- decodes to itself: the encoder returns bytes, and the decoder makes of them a message with the
  -- sequence, the timestamp and the input that were given, an empty text and the display 0 left
  -- out.
  pub decode-encode_rom_message :
      (input : InputMessage) (input_type : ℕ)
      → IsSafe input.sequence
      → IsSafe input.timestamp_ms
      → input_type ≤ max_safe_integer
      → or_default input.display_id 0 ≤ max_safe_integer
      → platform.decode_text (encode input.input_message) ≡ input.input_message
      → length (encode input.input_message) ≤ 2 ^ 20 - 64
      → (bytes : List ℕ) × (encode_rom_message encode input input_type ≡ ok bytes)
        × (decode_control_message platform bytes
            ≡ some (record (no_message platform (length bytes) (1 ∷ 2 ∷ 11 ∷ [])) {
              sequence = some (value_of input.sequence);
              timestamp_ms = some (value_of input.timestamp_ms);
              send_to_rom =
                  some (rom_of input_type input.input_message (or_default input.display_id 0));
            }))
  unfolding decode_control_message
  decode-encode_rom_message input input_type hs hu ht hd e hl =
      let body : List ℕ =
        encode_message
          (rom_entries encode input_type input.input_message (or_default input.display_id 0)) in
      let s : ℕ = value_of input.sequence in
      let u : ℕ = value_of input.timestamp_ms in
      let es : List Entry = envelope_entries s u 11 body in
      let bs : s ≤ max_safe_integer = IsSafe-bound input.sequence hs in
      let bu : u ≤ max_safe_integer = IsSafe-bound input.timestamp_ms hu in
      let inner : length body ≤ 60 + length (encode input.input_message) =
        length-rom_entries encode input_type input.input_message (or_default input.display_id 0)
          (omega (arith, ht, hd)) (omega (arith, hl)) in
      let outer : length (encode_message es) ≤ 60 + length body =
        length-envelope_entries s u 11 body (omega (arith, bs, bu)) (omega arith)
          (omega (arith, inner, hl)) in
      let (fs, r, st) =
        read_fields-message es no_options (omega (arith, bs, bu, inner, hl)) (omega arith) in
      (
        encode_message es,
        encode_rom_message-message encode input input_type hs hu,
        rw
            (
              le→ltb-false max_control_message_bytes (length (encode_message es))
                  (omega (arith, inner, outer, hl)),
              r,
              foldl-entries (control_step platform) (encode_message es) _ fs es st,
              tags-entries (encode_message es) fs es st,
              le→leb s max_safe_integer bs,
              le→leb u max_safe_integer bu,
              decode_send_to_rom-entries input_type input.input_message
                  (or_default input.display_id 0) ht hd e hl,
            )
            refl,
      )
