-- ===== src/Clipboard/RoundTrip.antt =====
-- The V3 clipboard request: what was encoded is decoded.
use uurc_web_new.Prelude.{
  ℕ, ◌^◌, ◌<◌, ◌≤◌, ◌≡◌, refl, ◌∙◌, some, List, [], ◌∷◌, ◌++◌, if◌then◌else◌, arith, All, length,
  ltb, ok, throw, range_error, ne→==-false, le→leb, append-nil, ==_self, append_assoc,
}
use uurc_web_new.Prelude.Text.{TextCodec, StartsNoMark}
use uurc_web_new.Prelude.Int.{pos, Numeric, number}
use uurc_web_new.Wire.{or_default, ProtobufField}
use uurc_web_new.Wire.Entries.{Entry, chunk_entry, encode_message, Small, push_string_field-message}
use uurc_web_new.Clipboard.Schema.{
  max_message_bytes, max_signed_int64, max_signed_int32, max_text_bytes,
}
use uurc_web_new.Clipboard.Fields.{
  ClipboardEnvelopeMetadata, decode_clipboard_rpc_envelope, read_text, read_int32,
  read_clipboard_fields, decode_clipboard_request_id, read_single_message_field,
}
use uurc_web_new.Clipboard.Decode.{
  text_change_request, decode_text_change_request, decode_clipboard_message,
}
use uurc_web_new.Clipboard.Encode.{
  ClipboardStamp, TextChangeRequestInput, encode_text_change_request, is_empty, push_text,
  assert_clipboard_int32, encode_clipboard_rpc_envelope,
}
use uurc_web_new.Clipboard.Views.{
  read_int64-entries, read_length_delimited_value-entries, read_single_message_field-entries,
  entry_int64, entry_bytes,
}
use uurc_web_new.Clipboard.Messages.{varint_if, rpc_entries, IsRpcTag}
use uurc_web_new.Clipboard.ReadBack.{
  read_clipboard_fields-message, length-chunk-le-message, decode-envelope, decode-request_id,
}
use uurc_web_new.Clipboard.Written.{
  value_of, envelope_bytes, IsWritten, write-envelope_ok, push_nonzero_number-nil, >>=-eq-ok,
  assert_clipboard_int32-eq_ok,
}

-- What the parts of a decoder find in an envelope that was written around a body.
pub record Frame (s t r rpc_tag body_tag : ℕ) (body : List ℕ) : Type 0 where
  pub fields : List ProtobufField
  pub envelope :
      decode_clipboard_rpc_envelope (envelope_bytes s t r rpc_tag body_tag body)
      ≡ some (record {
        sequence = s;
        timestamp_ms = t;
        rpc_tag = rpc_tag;
        rpc_bytes = encode_message (rpc_entries r body_tag body);
      })
  pub rpc_fields :
      read_clipboard_fields (encode_message (rpc_entries r body_tag body)) ≡ some fields
  pub request_id :
      decode_clipboard_request_id (encode_message (rpc_entries r body_tag body)) ≡ some r
  pub single_body :
      read_single_message_field (encode_message (rpc_entries r body_tag body)) fields body_tag
      ≡ some body
  pub body_short : length body ≤ max_message_bytes

pub frame :
    (s t r rpc_tag body_tag : ℕ) (body : List ℕ)
    → (s ≤ max_signed_int64) × (t ≤ max_signed_int64) × (r ≤ max_signed_int64)
    → IsRpcTag rpc_tag
    → (1 < body_tag) × (body_tag < 2 ^ 28)
    → length (envelope_bytes s t r rpc_tag body_tag body) ≤ max_message_bytes
    → Frame s t r rpc_tag body_tag body
frame s t r rpc_tag body_tag body (hs, ht, hr) tag btag h =
    let rpc : List ℕ = encode_message (rpc_entries r body_tag body) in
    let header : Entry = chunk_entry 1 (encode_message (varint_if 1 r)) in
    let short : length rpc ≤ max_message_bytes = omega (
      arith,
      h,
      rw append_assoc at (length-chunk-le-message (varint_if 1 s ++ varint_if 2 t) rpc_tag rpc []),
    ) in
    let (fs, e, st) =
      read_clipboard_fields-message (rpc_entries r body_tag body) (omega arith) (omega arith)
        short in
    record {
      fields = fs;
      envelope = decode-envelope s t rpc_tag rpc hs ht tag h;
      rpc_fields = e;
      request_id = decode-request_id r body_tag body hr btag short;
      single_body =
          read_single_message_field-entries rpc fs (rpc_entries r body_tag body) st body_tag
          ∙ rw (ne→==-false 1 body_tag (omega arith), ==_self body_tag) refl;
      body_short = omega (arith, short, length-chunk-le-message (header ∷ []) body_tag body []);
    }

-- The text of a request, which is written only if it is not empty.
abbrev pub text_if : (List ℕ → List ℕ) → ℕ → List ℕ → List Entry
text_if encode tag text = if is_empty text then [] else (chunk_entry tag (encode text) ∷ [])

pub push_text-message :
    (encode : List ℕ → List ℕ) (es : List Entry) (tag : ℕ) (text : List ℕ)
    → tag < 2 ^ 28
    → push_text encode (encode_message es) tag text
      ≡ ok (encode_message (es ++ text_if encode tag text))
push_text-message encode es tag [] h = rw append-nil refl
push_text-message encode es tag (c ∷ cs) h = push_string_field-message es tag h encode (c ∷ cs)

abbrev pub text_change_entries : (List ℕ → List ℕ) → ℕ → List ℕ → List Entry
text_change_entries encode format_id text = varint_if 1 format_id ++ text_if encode 2 text

module _ (encode : List ℕ → List ℕ) (n : ℕ) where
  text_change-Small :
      (text : List ℕ) → n ≤ max_signed_int32 → All Small (text_change_entries encode n text)
  text_change-Small [] h = ground arith
  text_change-Small (c ∷ cs) h = ground arith

  text_change_format :
      (text : List ℕ)
      → n ≤ max_signed_int32
      → entry_int64 (text_change_entries encode n text) 1 ≡ some n
  text_change_format [] h = ground arith
  text_change_format (c ∷ cs) h = ground arith

  text_change_text :
      (text : List ℕ)
      → encode [] ≡ []
      → length (encode text) ≤ max_text_bytes
      → entry_bytes (text_change_entries encode n text) 2 ≡ some (encode text)
  text_change_text [] e h = ground (arith, e)
  text_change_text (c ∷ cs) e h = ground (arith, h)

  length-text_change : (text : List ℕ) → length (text_change_entries encode n text) ≤ 2
  length-text_change [] = ground arith
  length-text_change (c ∷ cs) = ground arith

-- The body of a request is decoded.
decode-text_change_body :
    (codec : TextCodec) (n : ℕ) (text : List ℕ) (metadata : ClipboardEnvelopeMetadata)
    → codec.IsWellFormed text
    → StartsNoMark text
    → n ≤ max_signed_int32
    → length (codec.encode text) ≤ max_text_bytes
    → length (encode_message (text_change_entries codec.encode n text)) ≤ max_message_bytes
    → decode_text_change_request codec.decode
        (encode_message (text_change_entries codec.encode n text))
        metadata
      ≡ some (text_change_request metadata n text)
unfolding decode_text_change_request read_int32 read_text
decode-text_change_body codec n text metadata wf unmarked hn ht h =
    let es : List Entry = text_change_entries codec.encode n text in
    let bytes : List ℕ = encode_message es in
    let (fs, e, st) =
      read_clipboard_fields-message es (text_change-Small codec.encode n text hn)
        (omega (arith, length-text_change codec.encode n text)) h in
    rw e (
      rw
        (
          read_int64-entries bytes fs es st 1,
          text_change_format codec.encode n text hn,
          le→leb n max_signed_int32 hn,
          read_length_delimited_value-entries bytes fs es st 2,
          text_change_text codec.encode n text codec.encode_nil ht,
          codec.decode-encode text wf unmarked,
        )
        refl)

-- The metadata that the decoder returns for a stamp.
abbrev pub metadata_of_stamp : ClipboardStamp → ClipboardEnvelopeMetadata
metadata_of_stamp stamp = record {
  sequence = value_of stamp.sequence;
  timestamp_ms = value_of stamp.timestamp_ms;
  request_id = value_of stamp.request_id;
}

abbrev pub format_of : TextChangeRequestInput → Numeric
format_of input = or_default input.format_id (number (pos 1))

-- A request that was encoded went through every check, and is the envelope around its entries.
pub text_change-IsWritten :
    (encode : List ℕ → List ℕ) (input : TextChangeRequestInput) (bytes : List ℕ)
    → encode_text_change_request encode input ≡ ok bytes
    → (assert_clipboard_int32 (format_of input) ≡ ok (value_of (format_of input)))
      × (value_of (format_of input) ≤ max_signed_int32)
      × (length (encode input.text) ≤ max_text_bytes)
      × IsWritten input.stamp 21 10
          (encode_message (text_change_entries encode (value_of (format_of input)) input.text))
          bytes
unfolding encode_text_change_request
text_change-IsWritten encode input bytes h =
    let (n, en, h1) = >>=-eq-ok (assert_clipboard_int32 (format_of input)) _ h in
    let (_, eg, h2) =
      >>=-eq-ok {B = List ℕ}
        (if ltb max_text_bytes (length (encode input.text)) then throw range_error else ok tt) _
        h1 in
    let (v, b) = assert_clipboard_int32-eq_ok (format_of input) n en in
    let e1 = push_nonzero_number-nil 1 n (omega arith) in
    let e2 = push_text-message encode (varint_if 1 n) 2 input.text (omega arith) in
    let h3 : encode_clipboard_rpc_envelope input.stamp 21 10
          (encode_message (text_change_entries encode n input.text))
        ≡ ok bytes =
      rw (e1, e2) at h2 in
    (
      rw (← v) en,
      omega arith,
      ground (arith, eg),
      rw (← v) (write-envelope_ok input.stamp 21 10 _ bytes (omega arith) (omega arith) h3),
    )

-- A clipboard text request that the encoder accepts is decoded to the same sequence, timestamp,
-- request id, format and text, for every text without lone surrogates that does not begin with a
-- byte order mark.
pub decode-encode_text_change_request :
    (codec : TextCodec) (input : TextChangeRequestInput) (bytes : List ℕ)
    → codec.IsWellFormed input.text
    → StartsNoMark input.text
    → encode_text_change_request codec.encode input ≡ ok bytes
    → decode_clipboard_message codec.decode bytes
      ≡ some (
          text_change_request
            (metadata_of_stamp input.stamp)
            (value_of (format_of input))
            input.text)
unfolding decode_clipboard_message
decode-encode_text_change_request codec input bytes wf unmarked h =
    let (_, hn, ht, w) = text_change-IsWritten codec.encode input bytes h in
    let n : ℕ = value_of (format_of input) in
    let body : List ℕ = encode_message (text_change_entries codec.encode n input.text) in
    let f =
      frame (value_of input.stamp.sequence) (value_of input.stamp.timestamp_ms)
        (value_of input.stamp.request_id) 21 10 body
        (w.sequence_bound, w.timestamp_bound, w.request_id_bound) (omega arith) (omega arith)
        w.short in
    rw (w.written, f.envelope, f.rpc_fields, f.request_id, f.single_body)
      (decode-text_change_body codec n input.text (metadata_of_stamp input.stamp) wf unmarked hn ht
        f.body_short)
