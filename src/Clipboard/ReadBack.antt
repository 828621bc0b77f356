-- ===== src/Clipboard/ReadBack.antt =====
-- Decoding the envelope and the request id of a clipboard message that was written as entries.
use uurc_web_new.Prelude.{
  ℕ, ◌^◌, ◌<◌, ◌≤◌, ◌≡◌, refl, ap, some, List, [], ◌∷◌, ◌++◌, select, ◌==◌, ◌||◌, arith, All,
  length, length-append, le→ltb-false, ne→==-false,
}
use uurc_web_new.Wire.{ProtobufField}
use uurc_web_new.Wire.Entries.{
  Entry, chunk_entry, encode_message, encode_entry, Small, StandFor, Fits-of_length,
  length-chunk-le, encode_message-append,
}
use uurc_web_new.Wire.Reader.{read_fields-message}
use uurc_web_new.Wire.Views.{StandFor-select, StandsFor-bytes, StandsFor-tag}
use uurc_web_new.Clipboard.Schema.{clipboard_options, max_message_bytes, max_signed_int64}
use uurc_web_new.Clipboard.Fields.{
  read_clipboard_fields, single_rpc, decode_envelope_fields, decode_clipboard_rpc_envelope,
  decode_clipboard_request_id,
}
use uurc_web_new.Clipboard.Views.{read_int64-entries, read_single_message_field-entries}
use uurc_web_new.Clipboard.Messages.{
  varint_if, envelope_entries, rpc_entries, IsRpcTag, envelope-Small, length-envelope,
  envelope_sequence, envelope_timestamp, envelope_rpc, varint_if-Small, varint_if-int64,
}

-- A message that is short enough is read back.
pub read_clipboard_fields-message :
    (es : List Entry)
    → All Small es
    → length es ≤ 32
    → length (encode_message es) ≤ max_message_bytes
    → (fs : List ProtobufField) × (read_clipboard_fields (encode_message es) ≡ some fs)
      × StandFor (encode_message es) fs es
unfolding read_clipboard_fields
read_clipboard_fields-message es a n h =
    read_fields-message es clipboard_options (Fits-of_length max_message_bytes es (omega arith) a h)
      n

-- The bytes of an entry are not longer than the message around it.
pub length-chunk-le-message :
    (es : List Entry) (tag : ℕ) (chunk : List ℕ) (rest : List Entry)
    → length chunk ≤ length (encode_message (es ++ (chunk_entry tag chunk ∷ rest)))
unfolding encode_message
length-chunk-le-message es tag chunk rest =
    rw (encode_message-append es (chunk_entry tag chunk ∷ rest)) (
      omega (
        arith,
        length-append (encode_message es)
            (encode_entry (chunk_entry tag chunk) ++ encode_message rest),
        length-append (encode_entry (chunk_entry tag chunk)) (encode_message rest),
        length-chunk-le tag chunk,
      ))

single_rpc-entry :
    (bytes : List ℕ) (fs : List ProtobufField) (tag : ℕ) (chunk : List ℕ)
    → StandFor bytes fs (chunk_entry tag chunk ∷ [])
    → single_rpc bytes fs ≡ some (tag, chunk)
single_rpc-entry bytes [] tag chunk h = absurd h
single_rpc-entry bytes (f ∷ []) tag chunk (h, _) =
    rw (StandsFor-bytes bytes f (chunk_entry tag chunk) h)
      (ap (λ (t : ℕ). some (t, chunk)) (StandsFor-tag bytes f (chunk_entry tag chunk) h))
single_rpc-entry bytes (f ∷ g ∷ fs) tag chunk (_, h) = absurd h

-- The decoded envelope holds what was written.
pub decode-envelope :
    (s t rpc_tag : ℕ) (rpc : List ℕ)
    → s ≤ max_signed_int64
    → t ≤ max_signed_int64
    → IsRpcTag rpc_tag
    → length (encode_message (envelope_entries s t rpc_tag rpc)) ≤ max_message_bytes
    → decode_clipboard_rpc_envelope (encode_message (envelope_entries s t rpc_tag rpc))
      ≡ some (record { sequence = s; timestamp_ms = t; rpc_tag = rpc_tag; rpc_bytes = rpc })
unfolding decode_clipboard_rpc_envelope decode_envelope_fields
decode-envelope s t rpc_tag rpc hs ht hr h =
    let es : List Entry = envelope_entries s t rpc_tag rpc in
    let bytes : List ℕ = encode_message es in
    let (fs, r, st) =
      read_clipboard_fields-message es (envelope-Small s t rpc_tag rpc hs ht hr)
        (omega (arith, length-envelope s t rpc_tag rpc)) h in
    let picked : StandFor bytes (select (λ f. f.tag == 21 || f.tag == 22) fs)
        (chunk_entry rpc_tag rpc ∷ []) =
      rw (envelope_rpc s t rpc_tag rpc hr) at
        (StandFor-select bytes (λ tag. tag == 21 || tag == 22) fs es st) in
    rw (le→ltb-false max_message_bytes (length bytes) h, r)
      (rw
        (
          read_int64-entries bytes fs es st 1,
          read_int64-entries bytes fs es st 2,
          envelope_sequence s t rpc_tag rpc hs hr,
          envelope_timestamp s t rpc_tag rpc ht hr,
          single_rpc-entry bytes _ rpc_tag rpc picked,
        )
        refl)

-- The request id in the header of an RPC body.
pub decode-request_id :
    (r body_tag : ℕ) (body : List ℕ)
    → r ≤ max_signed_int64
    → (1 < body_tag) × (body_tag < 2 ^ 28)
    → length (encode_message (rpc_entries r body_tag body)) ≤ max_message_bytes
    → decode_clipboard_request_id (encode_message (rpc_entries r body_tag body)) ≡ some r
unfolding decode_clipboard_request_id
decode-request_id r body_tag body hr ht h =
    let es : List Entry = rpc_entries r body_tag body in
    let header : List ℕ = encode_message (varint_if 1 r) in
    let (fs, e, st) = read_clipboard_fields-message es (omega arith) (omega arith) h in
    let (gs, e', st') =
      read_clipboard_fields-message (varint_if 1 r)
        (varint_if-Small 1 r (omega arith) (omega arith)) (ground arith)
        (omega (arith, length-chunk-le-message [] 1 header (chunk_entry body_tag body ∷ []))) in
    rw
      (
        e,
        read_single_message_field-entries (encode_message es) fs es st 1,
        ne→==-false body_tag 1 (omega arith),
        e',
        read_int64-entries header gs (varint_if 1 r) st' 1,
      )
      (varint_if-int64 1 r hr)
