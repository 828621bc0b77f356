-- ===== src/Clipboard/Room.antt =====
-- The 256 bytes that `maxTextBytes` leaves free in a message are enough for all that stands around
-- the text.
use uurc_web_new.Prelude.{
  ℕ, ◌^◌, ◌<◌, ◌≤◌, ◌+◌, ◌-◌, ◌*◌, ◌≡◌, refl, ◌∙◌, List, [], ◌∷◌, ◌++◌, ◌==◌, arith, length,
  length-append, ◌↔◌, ok, Bool-cases, inl, inr, le→ltb-false, append-nil,
}
use uurc_web_new.Prelude.Int.{pos, negsuc, Numeric, number, bigint, inexact}
use uurc_web_new.Wire.Varint.{varint_bytes, length-varint_bytes-le}
use uurc_web_new.Wire.Entries.{
  Entry, varint_entry, chunk_entry, encode_message, encode_entry, encode_message-append,
}
use uurc_web_new.Clipboard.Schema.{
  max_message_bytes, max_signed_int64, max_signed_int32, max_text_bytes,
}
use uurc_web_new.Clipboard.Encode.{
  ClipboardStamp, TextChangeRequestInput, encode_text_change_request, checked_int64,
  encode_clipboard_rpc_envelope, assert_clipboard_int32,
}
use uurc_web_new.Clipboard.Messages.{varint_if, rpc_entries}
use uurc_web_new.Clipboard.Written.{
  value_of, envelope_bytes, write-envelope, push_nonzero_number-nil, checked_int64-eq_ok,
  assert_clipboard_int32-eq_ok,
}
use uurc_web_new.Clipboard.RoundTrip.{
  text_if, text_change_entries, format_of, push_text-message, text_change-IsWritten,
}

pub length-varint_entry :
    (tag n : ℕ) → tag < 2 ^ 28 → n < 2 ^ 64 → length (encode_entry (varint_entry tag n)) ≤ 20
unfolding encode_entry
length-varint_entry tag n ht hn = omega (
  arith,
  length-append (varint_bytes (tag * 8)) (varint_bytes n),
  length-varint_bytes-le (tag * 8) (omega arith),
  length-varint_bytes-le n hn,
)

length-chunk_entry :
    (tag : ℕ) (chunk : List ℕ)
    → tag < 2 ^ 28
    → length chunk < 2 ^ 64
    → length (encode_entry (chunk_entry tag chunk)) ≤ 20 + length chunk
unfolding encode_entry
length-chunk_entry tag chunk ht hn = omega (
  arith,
  length-append (varint_bytes (tag * 8 + 2)) (varint_bytes (length chunk) ++ chunk),
  length-append (varint_bytes (length chunk)) chunk,
  length-varint_bytes-le (tag * 8 + 2) (omega arith),
  length-varint_bytes-le (length chunk) hn,
)

pub length-varint_if :
    (tag n : ℕ) → tag < 2 ^ 28 → n < 2 ^ 64 → length (encode_message (varint_if tag n)) ≤ 20
unfolding encode_message
length-varint_if tag n ht hn = elim (Bool-cases (n == 0)) [
  | inl z ↦ rw z (omega arith)
  | inr p ↦ rw (p, append-nil) (length-varint_entry tag n ht hn)
]

pub length-chunk_message :
    (tag : ℕ) (chunk : List ℕ) (es : List Entry)
    → tag < 2 ^ 28
    → length chunk < 2 ^ 64
    → length (encode_message (chunk_entry tag chunk ∷ es))
      ≤ 20 + length chunk + length (encode_message es)
unfolding encode_message
length-chunk_message tag chunk es ht hn = omega (
  arith,
  length-append (encode_entry (chunk_entry tag chunk)) (encode_message es),
  length-chunk_entry tag chunk ht hn,
)

pub length-encode_nil : length (encode_message []) ≡ 0
unfolding encode_message
length-encode_nil = refl

-- An envelope adds 160 bytes at most.
length-envelope_bytes :
    (s t r rpc_tag body_tag : ℕ) (body : List ℕ)
    → (s ≤ max_signed_int64) × (t ≤ max_signed_int64) × (r ≤ max_signed_int64)
    → rpc_tag < 2 ^ 28
    → body_tag < 2 ^ 28
    → length body < 2 ^ 32
    → length (envelope_bytes s t r rpc_tag body_tag body) ≤ 160 + length body
length-envelope_bytes s t r rpc_tag body_tag body h hr hb hl =
    let rpc : List ℕ = encode_message (rpc_entries r body_tag body) in
    let header : List ℕ = encode_message (varint_if 1 r) in
    let a : length header ≤ 20 = length-varint_if 1 r (omega arith) (omega arith) in
    let inner : length rpc ≤ 60 + length body = omega (
      arith,
      a,
      length-chunk_message 1 header (chunk_entry body_tag body ∷ []) (omega arith)
          (omega (arith, a)),
      length-chunk_message body_tag body [] hb (omega arith),
      length-encode_nil,
    ) in
    rw
      (
        encode_message-append (varint_if 1 s) (varint_if 2 t ++ (chunk_entry rpc_tag rpc ∷ [])),
        encode_message-append (varint_if 2 t) (chunk_entry rpc_tag rpc ∷ []),
      )
      (omega (
        arith,
        inner,
        length-append (encode_message (varint_if 1 s))
            (encode_message (varint_if 2 t) ++ encode_message (chunk_entry rpc_tag rpc ∷ [])),
        length-append (encode_message (varint_if 2 t))
            (encode_message (chunk_entry rpc_tag rpc ∷ [])),
        length-varint_if 1 s (omega arith) (omega arith),
        length-varint_if 2 t (omega arith) (omega arith),
        length-chunk_message rpc_tag rpc [] hr (omega (arith, inner)),
        length-encode_nil,
      ))

-- The numbers that the encoder accepts as an int64: safe integers, and bigints, in range.
abbrev pub IsInt64 : Numeric → Type 0
IsInt64 (number (pos n)) = n ≤ 2 ^ 53 - 1
IsInt64 (bigint (pos n)) = n ≤ 2 ^ 63 - 1
IsInt64 _ = ⊥

-- And as an int32: integers of type `number`, in range.
abbrev pub IsInt32 : Numeric → Type 0
IsInt32 (number (pos n)) = n ≤ 2 ^ 31 - 1
IsInt32 _ = ⊥

checked_int64_ok : (x : Numeric) → IsInt64 x → checked_int64 x ≡ ok (value_of x)
unfolding checked_int64
checked_int64_ok (number (pos n)) h = ground arith
checked_int64_ok (number (negsuc n)) h = absurd h
checked_int64_ok (bigint (pos n)) h = ground arith
checked_int64_ok (bigint (negsuc n)) h = absurd h
checked_int64_ok inexact h = absurd h

IsInt64-of_ok : (x : Numeric) (n : ℕ) → checked_int64 x ≡ ok n → IsInt64 x
unfolding checked_int64
IsInt64-of_ok (number (pos m)) n h = ground arith
IsInt64-of_ok (number (negsuc m)) n h = cc
IsInt64-of_ok (bigint (pos m)) n h = ground arith
IsInt64-of_ok (bigint (negsuc m)) n h = cc
IsInt64-of_ok inexact n h = cc

assert_int32_ok : (x : Numeric) → IsInt32 x → assert_clipboard_int32 x ≡ ok (value_of x)
unfolding assert_clipboard_int32
assert_int32_ok (number (pos n)) h = ground arith
assert_int32_ok (number (negsuc n)) h = absurd h
assert_int32_ok (bigint z) h = absurd h
assert_int32_ok inexact h = absurd h

IsInt32-of_ok : (x : Numeric) (n : ℕ) → assert_clipboard_int32 x ≡ ok n → IsInt32 x
unfolding assert_clipboard_int32
IsInt32-of_ok (number (pos m)) n h = ground arith
IsInt32-of_ok (number (negsuc m)) n h = cc
IsInt32-of_ok (bigint z) n h = cc
IsInt32-of_ok inexact n h = cc

IsInt64-bound : (x : Numeric) → IsInt64 x → value_of x ≤ max_signed_int64
IsInt64-bound x h = (checked_int64-eq_ok x (value_of x) (checked_int64_ok x h)).1

IsInt32-bound : (x : Numeric) → IsInt32 x → value_of x ≤ max_signed_int32
IsInt32-bound x h = (assert_clipboard_int32-eq_ok x (value_of x) (assert_int32_ok x h)).1

-- The envelope of an accepted stamp around a body of less than 512 KiB less 160 bytes is written.
pub write-envelope_total :
    (stamp : ClipboardStamp) (rpc_tag body_tag : ℕ) (body : List ℕ)
    → IsInt64 stamp.sequence × IsInt64 stamp.timestamp_ms × IsInt64 stamp.request_id
    → rpc_tag < 2 ^ 28
    → body_tag < 2 ^ 28
    → length body + 160 ≤ max_message_bytes
    → (bytes : List ℕ) × (encode_clipboard_rpc_envelope stamp rpc_tag body_tag body ≡ ok bytes)
write-envelope_total stamp rpc_tag body_tag body (hs, ht, hr) h21 hb hl =
    let s : ℕ = value_of stamp.sequence in
    let t : ℕ = value_of stamp.timestamp_ms in
    let r : ℕ = value_of stamp.request_id in
    let bounds : (s ≤ max_signed_int64) × (t ≤ max_signed_int64) × (r ≤ max_signed_int64) = (
      IsInt64-bound stamp.sequence hs,
      IsInt64-bound stamp.timestamp_ms ht,
      IsInt64-bound stamp.request_id hr,
    ) in
    let len = length-envelope_bytes s t r rpc_tag body_tag body bounds h21 hb (omega arith) in
    (
      envelope_bytes s t r rpc_tag body_tag body,
      write-envelope stamp s t r rpc_tag body_tag body (checked_int64_ok stamp.sequence hs)
            (checked_int64_ok stamp.timestamp_ms ht) (checked_int64_ok stamp.request_id hr) h21 hb
          ∙ rw
              (le→ltb-false max_message_bytes (length (envelope_bytes s t r rpc_tag body_tag body))
                (omega (arith, len)))
              refl,
    )

pub length-text_if :
    (encode : List ℕ → List ℕ) (tag : ℕ) (text : List ℕ)
    → tag < 2 ^ 28
    → length (encode text) < 2 ^ 32
    → length (encode_message (text_if encode tag text)) ≤ 20 + length (encode text)
length-text_if encode tag [] ht h = omega (arith, length-encode_nil)
length-text_if encode tag (c ∷ cs) ht h =
    omega (arith, length-encode_nil, length-chunk_message tag (encode (c ∷ cs)) [] ht (omega arith))

-- The clipboard request encoder accepts exactly the numbers in range and the texts of at most
-- `maxTextBytes` bytes: it never throws for the size of the whole message.
pub encode_text_change_request_iff :
    (encode : List ℕ → List ℕ) (input : TextChangeRequestInput)
    → ((bytes : List ℕ) × (encode_text_change_request encode input ≡ ok bytes)) ↔ (
        IsInt64 input.stamp.sequence
        × IsInt64 input.stamp.timestamp_ms
        × IsInt64 input.stamp.request_id
        × IsInt32 (format_of input)
        × (length (encode input.text) ≤ max_text_bytes))
unfolding encode_text_change_request
encode_text_change_request_iff encode input = (accepted, accepts)
  where
    n : ℕ
    n = value_of (format_of input)

    accepted :
        (bytes : List ℕ) × (encode_text_change_request encode input ≡ ok bytes)
        → IsInt64 input.stamp.sequence
          × IsInt64 input.stamp.timestamp_ms
          × IsInt64 input.stamp.request_id
          × IsInt32 (format_of input)
          × (length (encode input.text) ≤ max_text_bytes)
    accepted (bytes, h) =
        let (f, _, hl, w) = text_change-IsWritten encode input bytes h in
        let (cs, ct, cr) = w.checked in
        (IsInt64-of_ok _ _ cs, IsInt64-of_ok _ _ ct, IsInt64-of_ok _ _ cr, IsInt32-of_ok _ _ f, hl)

    accepts :
        IsInt64 input.stamp.sequence
          × IsInt64 input.stamp.timestamp_ms
          × IsInt64 input.stamp.request_id
          × IsInt32 (format_of input)
          × (length (encode input.text) ≤ max_text_bytes)
        → (bytes : List ℕ) × (encode_text_change_request encode input ≡ ok bytes)
    accepts (hs, ht, hr, hf, hl) =
        let body : List ℕ = encode_message (text_change_entries encode n input.text) in
        let b : n ≤ max_signed_int32 = IsInt32-bound (format_of input) hf in
        let len : length body ≤ 40 + length (encode input.text) =
          rw (encode_message-append (varint_if 1 n) (text_if encode 2 input.text)) (
            omega (
              arith,
              length-append (encode_message (varint_if 1 n))
                  (encode_message (text_if encode 2 input.text)),
              length-varint_if 1 n (omega arith) (omega arith),
              length-text_if encode 2 input.text (omega arith) (omega arith),
            )) in
        let (bytes, e) =
          write-envelope_total input.stamp 21 10 body (hs, ht, hr) (omega arith) (omega arith)
            (omega (arith, len)) in
        (
          bytes,
          rw
              (
                assert_int32_ok (format_of input) hf,
                le→ltb-false max_text_bytes (length (encode input.text)) hl,
                push_nonzero_number-nil 1 n (omega arith),
                push_text-message encode (varint_if 1 n) 2 input.text (omega arith),
              )
              e,
        )
