-- ===== src/Control/Written.antt =====
-- What `encodeStreamerRomMessage` writes, as a message of entries.
use uurc_web_new.Prelude.{
  ℕ, ◌+◌, ◌^◌, ◌≤◌, ◌<◌, ◌≡◌, refl, ap, ◌∙◌, Option, none, some, List, [], ◌∷◌, ◌++◌, length, ◌==◌,
  if◌then◌else◌, ok, arith, Bool-cases, inl, inr, append-nil, append_assoc, length-append,
}
use uurc_web_new.Prelude.Int.{pos, negsuc, Numeric, number, bigint, inexact}
use uurc_web_new.Wire.{push_varint_field, or_default, max_safe_integer}
use uurc_web_new.Wire.Entries.{
  Entry, varint_entry, chunk_entry, encode_message, encode_entry, encode_message-append,
  push_varint_field-message, push_bigint_field-message, push_message_field-message,
  push_string_field-message,
}
use uurc_web_new.Clipboard.Messages.{varint_if}
use uurc_web_new.Clipboard.Written.{value_of}
use uurc_web_new.Clipboard.RoundTrip.{text_if}
use uurc_web_new.Clipboard.Room.{
  length-varint_if, length-text_if, length-chunk_message, length-varint_entry, length-encode_nil,
}
use uurc_web_new.Control.Encode.{
  InputMessage, encode_envelope, push_display, push_input_type, push_input_text, encode_rom_message,
}

-- A safe integer of either type that is not negative.
abbrev pub IsSafe : Numeric → Type 0
IsSafe (number (pos n)) = n ≤ max_safe_integer
IsSafe (bigint (pos n)) = n ≤ max_safe_integer
IsSafe _ = ⊥

pub IsSafe-bound : (x : Numeric) → IsSafe x → value_of x ≤ max_safe_integer
IsSafe-bound (number (pos n)) h = h
IsSafe-bound (number (negsuc n)) h = elim h [ ]
IsSafe-bound (bigint (pos n)) h = h
IsSafe-bound (bigint (negsuc n)) h = elim h [ ]
IsSafe-bound inexact h = elim h [ ]

push_varint_field-safe :
    (es : List Entry) (tag : ℕ) (x : Numeric)
    → tag < 2 ^ 28
    → IsSafe x
    → push_varint_field (encode_message es) tag x
      ≡ ok (encode_message (es ++ varint_entry tag (value_of x) ∷ []))
push_varint_field-safe es tag (number (pos n)) small h = push_varint_field-message es tag small n
push_varint_field-safe es tag (number (negsuc n)) small h = elim h [ ]
push_varint_field-safe es tag (bigint (pos n)) small h = push_bigint_field-message es tag small n
push_varint_field-safe es tag (bigint (negsuc n)) small h = elim h [ ]
push_varint_field-safe es tag inexact small h = elim h [ ]

-- The entries of the body, and of the message around it.
abbrev pub rom_entries : (List ℕ → List ℕ) → ℕ → List ℕ → ℕ → List Entry
rom_entries encode input_type text display =
    varint_if 1 input_type ++ (text_if encode 2 text ++ varint_if 3 display)

abbrev pub envelope_entries : ℕ → ℕ → ℕ → List ℕ → List Entry
envelope_entries sequence timestamp_ms tag body =
    varint_entry 1 sequence ∷ varint_entry 2 timestamp_ms ∷ chunk_entry tag body ∷ []

encode_envelope-message :
    (s u : Numeric) (tag : ℕ) (body : List ℕ)
    → IsSafe s
    → IsSafe u
    → tag < 2 ^ 28
    → encode_envelope s u tag body
      ≡ ok (encode_message (envelope_entries (value_of s) (value_of u) tag body))
unfolding encode_envelope encode_message
encode_envelope-message s u tag body hs hu small =
    rw
      (
        push_varint_field-safe [] 1 s (omega arith) hs,
        push_varint_field-safe (varint_entry 1 (value_of s) ∷ []) 2 u (omega arith) hu,
      )
      (push_message_field-message (varint_entry 1 (value_of s) ∷ varint_entry 2 (value_of u) ∷ [])
        tag small body)

push_varint_if :
    (es : List Entry) (tag n : ℕ)
    → tag < 2 ^ 28
    → (if n == 0
        then ok (encode_message es)
        else push_varint_field (encode_message es) tag (number (pos n)))
      ≡ ok (encode_message (es ++ varint_if tag n))
push_varint_if es tag n small = elim (Bool-cases (n == 0)) [
  | inl z ↦ rw (z, append-nil) refl
  | inr p ↦ rw p (push_varint_field-message es tag small n)
]

push_input_type-message :
    (input_type : ℕ) → push_input_type [] input_type ≡ ok (encode_message (varint_if 1 input_type))
unfolding encode_message
push_input_type-message input_type = push_varint_if [] 1 input_type (omega arith)

push_display-message :
    (es : List Entry) (display : Option ℕ)
    → push_display (encode_message es) display
      ≡ ok (encode_message (es ++ varint_if 3 (or_default display 0)))
push_display-message es none = rw append-nil refl
push_display-message es (some n) = push_varint_if es 3 n (omega arith)

push_input_text-message :
    (encode : List ℕ → List ℕ) (es : List Entry) (text : List ℕ)
    → push_input_text encode (encode_message es) text
      ≡ ok (encode_message (es ++ text_if encode 2 text))
push_input_text-message encode es [] = rw append-nil refl
push_input_text-message encode es (c ∷ cs) =
    push_string_field-message es 2 (omega arith) encode (c ∷ cs)

-- The encoder returns the bytes of this message for all safe numbers.
pub encode_rom_message-message :
    (encode : List ℕ → List ℕ) (input : InputMessage) (input_type : ℕ)
    → IsSafe input.sequence
    → IsSafe input.timestamp_ms
    → encode_rom_message encode input input_type
      ≡ ok (
          encode_message (
            envelope_entries (value_of input.sequence) (value_of input.timestamp_ms) 11 (
              encode_message (
                rom_entries encode input_type input.input_message
                  (or_default input.display_id 0)))))
unfolding encode_rom_message
encode_rom_message-message encode input input_type hs hu =
    let a : List Entry = varint_if 1 input_type in
    let b : List Entry = text_if encode 2 input.input_message in
    let c : List Entry = varint_if 3 (or_default input.display_id 0) in
    rw
      (
        push_input_type-message input_type,
        push_input_text-message encode a input.input_message,
        push_display-message (a ++ b) input.display_id,
      )
      (encode_envelope-message input.sequence input.timestamp_ms 11 (encode_message ((a ++ b) ++ c))
          hs hu (omega arith)
        ∙ ap
            (λ es. ok (
              encode_message (
                envelope_entries (value_of input.sequence) (value_of input.timestamp_ms) 11
                  (encode_message es))))
            (append_assoc a b c))

pub length-rom_entries :
    (encode : List ℕ → List ℕ) (input_type : ℕ) (text : List ℕ) (display : ℕ)
    → (input_type < 2 ^ 64) × (display < 2 ^ 64)
    → length (encode text) < 2 ^ 32
    → length (encode_message (rom_entries encode input_type text display))
      ≤ 60 + length (encode text)
length-rom_entries encode input_type text display h hl =
    rw
      (
        encode_message-append (varint_if 1 input_type)
            (text_if encode 2 text ++ varint_if 3 display),
        encode_message-append (text_if encode 2 text) (varint_if 3 display),
      )
      (omega (
        arith,
        length-varint_if 1 input_type (omega arith) (omega arith),
        length-varint_if 3 display (omega arith) (omega arith),
        length-text_if encode 2 text (omega arith) hl,
        length-append (encode_message (varint_if 1 input_type))
            (encode_message (text_if encode 2 text) ++ encode_message (varint_if 3 display)),
        length-append (encode_message (text_if encode 2 text))
            (encode_message (varint_if 3 display)),
      ))

pub length-envelope_entries :
    (s u tag : ℕ) (body : List ℕ)
    → (s < 2 ^ 64) × (u < 2 ^ 64)
    → tag < 2 ^ 28
    → length body < 2 ^ 64
    → length (encode_message (envelope_entries s u tag body)) ≤ 60 + length body
unfolding encode_message
length-envelope_entries s u tag body h ht hb =
    let first : List ℕ = encode_entry (varint_entry 1 s) in
    let second : List ℕ = encode_entry (varint_entry 2 u) in
    omega (
      arith,
      length-varint_entry 1 s (omega arith) h.0,
      length-varint_entry 2 u (omega arith) h.1,
      length-chunk_message tag body [] ht hb,
      length-encode_nil,
      length-append first (second ++ encode_message (chunk_entry tag body ∷ [])),
      length-append second (encode_message (chunk_entry tag body ∷ [])),
    )
