-- ===== src/Clipboard/Written.antt =====
-- What the clipboard encoders write, as entries, and when they throw.
use uurc_web_new.Prelude.{
  ℕ, ◌^◌, ◌<◌, ◌≤◌, ◌≡◌, refl, sym, ◌∙◌, List, [], ◌∷◌, ◌++◌, ◌==◌, if◌then◌else◌, arith, length,
  ltb, Outcome, ok, throw, range_error, ◌>>=◌, Bool-cases, inl, inr, append-nil, append_assoc,
}
use uurc_web_new.Prelude.Int.{pos, negsuc, Numeric, number, bigint, inexact}
use uurc_web_new.Wire.Entries.{
  Entry, chunk_entry, encode_message, push_varint_field-message, push_bigint_field-message,
  push_message_field-message, push_message_field-nil,
}
use uurc_web_new.Clipboard.Schema.{max_message_bytes, max_signed_int64, max_signed_int32}
use uurc_web_new.Clipboard.Encode.{
  checked_int64, assert_clipboard_int32, push_nonzero_bigint, push_nonzero_number, ClipboardStamp,
  encode_clipboard_rpc_envelope,
}
use uurc_web_new.Clipboard.Messages.{varint_if, envelope_entries, rpc_entries}

-- The value of a number, where it has a natural one.
abbrev pub value_of : Numeric → ℕ
value_of (number (pos n)) = n
value_of (bigint (pos n)) = n
value_of _ = 0

-- A number that has passed is its value, and an int64.
pub checked_int64-eq_ok :
    (x : Numeric) (n : ℕ) → checked_int64 x ≡ ok n → (n ≡ value_of x) × (n ≤ max_signed_int64)
unfolding checked_int64
checked_int64-eq_ok (number (pos m)) n h = ground arith
checked_int64-eq_ok (number (negsuc m)) n h = cc
checked_int64-eq_ok (bigint (pos m)) n h = ground arith
checked_int64-eq_ok (bigint (negsuc m)) n h = cc
checked_int64-eq_ok inexact n h = cc

pub assert_clipboard_int32-eq_ok :
    (x : Numeric) (n : ℕ)
    → assert_clipboard_int32 x ≡ ok n
    → (n ≡ value_of x) × (n ≤ max_signed_int32)
unfolding assert_clipboard_int32
assert_clipboard_int32-eq_ok (number (pos m)) n h = ground arith
assert_clipboard_int32-eq_ok (number (negsuc m)) n h = cc
assert_clipboard_int32-eq_ok (bigint z) n h = cc
assert_clipboard_int32-eq_ok inexact n h = cc

module _ (es : List Entry) (tag n : ℕ) (small : tag < 2 ^ 28) where
  pub push_nonzero_bigint-message :
      push_nonzero_bigint (encode_message es) tag n ≡ ok (encode_message (es ++ varint_if tag n))
  push_nonzero_bigint-message = elim (Bool-cases (n == 0)) [
    | inl z ↦ rw (z, append-nil es) refl
    | inr p ↦ rw p (push_bigint_field-message es tag small n)
  ]

  pub push_nonzero_number-message :
      push_nonzero_number (encode_message es) tag n ≡ ok (encode_message (es ++ varint_if tag n))
  push_nonzero_number-message = elim (Bool-cases (n == 0)) [
    | inl z ↦ rw (z, append-nil es) refl
    | inr p ↦ rw p (push_varint_field-message es tag small n)
  ]

-- Inversion of a bind that has not thrown.
-- A chain that ended well: its first part returned a value, and the rest went on from there.
pub >>=-eq-ok {ℓ κ} :
    {A : Type ℓ} {B : Type κ} (first : Outcome A) (next : A → Outcome B) {end : B}
    (done : (first >>= next) ≡ ok end)
    → (value : A) × (first ≡ ok value) × (next value ≡ ok end)
>>=-eq-ok (throw thrown) next done = cc
>>=-eq-ok (ok value) next done = (value, refl, done)

pub push_nonzero_bigint-nil :
    (tag n : ℕ)
    → tag < 2 ^ 28
    → push_nonzero_bigint [] tag n ≡ ok (encode_message (varint_if tag n))
unfolding encode_message
push_nonzero_bigint-nil tag n small = push_nonzero_bigint-message [] tag n small

pub push_nonzero_number-nil :
    (tag n : ℕ)
    → tag < 2 ^ 28
    → push_nonzero_number [] tag n ≡ ok (encode_message (varint_if tag n))
unfolding encode_message
push_nonzero_number-nil tag n small = push_nonzero_number-message [] tag n small

-- The bytes of an envelope around a body.
abbrev pub envelope_bytes : ℕ → ℕ → ℕ → ℕ → ℕ → List ℕ → List ℕ
envelope_bytes s t r rpc_tag body_tag body =
    encode_message (envelope_entries s t rpc_tag (encode_message (rpc_entries r body_tag body)))

-- The envelope is written if it is not too long, and throws if it is.
pub write-envelope :
    (stamp : ClipboardStamp) (s t r rpc_tag body_tag : ℕ) (body : List ℕ)
    → checked_int64 stamp.sequence ≡ ok s
    → checked_int64 stamp.timestamp_ms ≡ ok t
    → checked_int64 stamp.request_id ≡ ok r
    → rpc_tag < 2 ^ 28
    → body_tag < 2 ^ 28
    → encode_clipboard_rpc_envelope stamp rpc_tag body_tag body ≡ (
        if ltb max_message_bytes (length (envelope_bytes s t r rpc_tag body_tag body))
        then throw range_error
        else ok (envelope_bytes s t r rpc_tag body_tag body))
unfolding encode_clipboard_rpc_envelope
write-envelope stamp s t r rpc_tag body_tag body hs ht hr h21 hb =
    rw
      (
        hs,
        ht,
        hr,
        push_nonzero_bigint-nil 1 r (omega arith),
        push_message_field-nil 1 (encode_message (varint_if 1 r)) (omega arith),
        push_message_field-message (chunk_entry 1 (encode_message (varint_if 1 r)) ∷ []) body_tag hb
            body,
        push_nonzero_bigint-nil 1 s (omega arith),
        push_nonzero_bigint-message (varint_if 1 s) 2 t (omega arith),
        push_message_field-message (varint_if 1 s ++ varint_if 2 t) rpc_tag h21,
        append_assoc,
      )
      refl

checked_value :
    (x : Numeric) (n : ℕ)
    → checked_int64 x ≡ ok n
    → (checked_int64 x ≡ ok (value_of x)) × (value_of x ≤ max_signed_int64)
checked_value x n h = let (v, b) = checked_int64-eq_ok x n h in (rw (← v) h, omega arith)

-- A guard on the length that has not thrown.
short_enough :
    (limit : ℕ) (written bytes : List ℕ)
    → (if ltb limit (length written) then throw range_error else ok written) ≡ ok bytes
    → (bytes ≡ written) × (length written ≤ limit)
short_enough limit written bytes h = ground arith

-- An envelope that was written: its numbers are int64s, and it is not too long.
pub record IsWritten (stamp : ClipboardStamp) (rpc_tag body_tag : ℕ) (body bytes : List ℕ)
    : Type 0 where
  pub checked :
      (checked_int64 stamp.sequence ≡ ok (value_of stamp.sequence))
      × (checked_int64 stamp.timestamp_ms ≡ ok (value_of stamp.timestamp_ms))
      × (checked_int64 stamp.request_id ≡ ok (value_of stamp.request_id))
  pub sequence_bound : value_of stamp.sequence ≤ max_signed_int64
  pub timestamp_bound : value_of stamp.timestamp_ms ≤ max_signed_int64
  pub request_id_bound : value_of stamp.request_id ≤ max_signed_int64
  pub written :
      bytes
      ≡ envelope_bytes
          (value_of stamp.sequence)
          (value_of stamp.timestamp_ms)
          (value_of stamp.request_id)
          rpc_tag
          body_tag
          body
  pub short :
      length (
        envelope_bytes
          (value_of stamp.sequence)
          (value_of stamp.timestamp_ms)
          (value_of stamp.request_id)
          rpc_tag
          body_tag
          body)
      ≤ max_message_bytes

pub write-envelope_ok :
    (stamp : ClipboardStamp) (rpc_tag body_tag : ℕ) (body bytes : List ℕ)
    → rpc_tag < 2 ^ 28
    → body_tag < 2 ^ 28
    → encode_clipboard_rpc_envelope stamp rpc_tag body_tag body ≡ ok bytes
    → IsWritten stamp rpc_tag body_tag body bytes
unfolding encode_clipboard_rpc_envelope
write-envelope_ok stamp rpc_tag body_tag body bytes hr hb h =
    let (s, es, h1) = >>=-eq-ok (checked_int64 stamp.sequence) _ h in
    let (t, et, h2) = >>=-eq-ok (checked_int64 stamp.timestamp_ms) _ h1 in
    let (r, er, _) = >>=-eq-ok (checked_int64 stamp.request_id) _ h2 in
    let (vs, bs) = checked_value stamp.sequence s es in
    let (vt, bt) = checked_value stamp.timestamp_ms t et in
    let (vr, br) = checked_value stamp.request_id r er in
    let (w, short) =
      short_enough max_message_bytes _ bytes
        (sym (write-envelope stamp _ _ _ rpc_tag body_tag body vs vt vr hr hb) ∙ h) in
    record {
      checked = (vs, vt, vr);
      sequence_bound = bs;
      timestamp_bound = bt;
      request_id_bound = br;
      written = w;
      short = short;
    }
