-- ===== src/Wire/Entries.antt =====
-- Messages as lists of entries, the bytes that the push functions write for them, and when the
-- fields that the reader returns stand for such a message.
use uurc_web_new.Prelude.{
  ℕ, ◌+◌, ◌*◌, ◌^◌, ◌≤◌, ◌<◌, ◌≡◌, List, [], ◌∷◌, ◌++◌, append_assoc, append-nil, sym, ap, ◌∙◌, All,
  length-append, append-nil, sym, ap, ◌∙◌, All, length-append, length, ok, arith, refl,
}
use uurc_web_new.Prelude.Int.{pos, number, bigint}
use uurc_web_new.Wire.{
  ProtobufField, varint_field, data_field, subarray, length_delimited_type, push_varint_field,
  push_message_field, push_string_field, push_varint, push_int32_field, unsigned64,
}
use uurc_web_new.Wire.Varint.{varint_bytes, push_field_key-small, push_varint-number}

-- A field that the code writes: a varint, or bytes behind their length.
pub data Entry : Type 0 where
  varint_entry : ℕ → ℕ → Entry
  chunk_entry : ℕ → List ℕ → Entry

unfoldable pub encode_entry : Entry → List ℕ
encode_entry (varint_entry tag n) = varint_bytes (tag * 8) ++ varint_bytes n
encode_entry (chunk_entry tag chunk) =
    varint_bytes (tag * 8 + 2) ++ (varint_bytes (length chunk) ++ chunk)

unfoldable pub encode_message : List Entry → List ℕ
encode_message [] = []
encode_message (e ∷ es) = encode_entry e ++ encode_message es

-- The field numbers that protobuf allows and `<<` keeps, and the values that the reader accepts.
abbrev pub IsTag : ℕ → Type 0
IsTag tag = (0 < tag) × (tag < 2 ^ 28)

abbrev pub Fits : ℕ → Entry → Type 0
Fits limit (varint_entry tag n) = IsTag tag × (n < 2 ^ 64)
Fits limit (chunk_entry tag chunk) = IsTag tag × (length chunk ≤ limit) × (limit < 2 ^ 53)

-- The field that the reader returns for the entry: with the value, or with the place of the bytes.
abbrev pub StandsFor : List ℕ → ProtobufField → Entry → Type 0
StandsFor bytes field (varint_entry tag n) = field ≡ varint_field tag 0 n
StandsFor bytes field (chunk_entry tag chunk) =
    (start : ℕ) × (field ≡ data_field tag length_delimited_type start (length chunk))
    × (subarray bytes start (length chunk) ≡ chunk)

abbrev pub StandFor : List ℕ → List ProtobufField → List Entry → Type 0
StandFor bytes [] [] = Unit
StandFor bytes [] (e ∷ es) = ⊥
StandFor bytes (f ∷ fs) [] = ⊥
StandFor bytes (f ∷ fs) (e ∷ es) = StandsFor bytes f e × StandFor bytes fs es

-- Each push appends the bytes of one entry.
pub push_varint_field-number :
    (bytes : List ℕ) (tag n : ℕ)
    → tag < 2 ^ 28
    → push_varint_field bytes tag (number (pos n)) ≡ ok (bytes ++ encode_entry (varint_entry tag n))
unfolding push_varint_field encode_entry
push_varint_field-number bytes tag n h =
    let e : tag * 8 + 0 ≡ tag * 8 = omega arith in
    rw (push_field_key-small bytes tag 0 h (omega arith), e, push_varint-number, append_assoc)

pub push_varint_field-bigint :
    (bytes : List ℕ) (tag n : ℕ)
    → tag < 2 ^ 28
    → push_varint_field bytes tag (bigint (pos n)) ≡ ok (bytes ++ encode_entry (varint_entry tag n))
unfolding push_varint_field push_varint
push_varint_field-bigint bytes tag n h = push_varint_field-number bytes tag n h

pub push_message_field_lem :
    (bytes : List ℕ) (tag : ℕ) (payload : List ℕ)
    → tag < 2 ^ 28
    → push_message_field bytes tag payload ≡ ok (bytes ++ encode_entry (chunk_entry tag payload))
unfolding push_message_field encode_entry
push_message_field_lem bytes tag payload h =
    rw
      (
        push_field_key-small bytes tag 2 h (omega arith),
        push_varint-number (bytes ++ varint_bytes (tag * 8 + 2)) (length payload),
      )
      (simp append_assoc)

pub push_string_field_lem :
    (encode : List ℕ → List ℕ) (bytes : List ℕ) (tag : ℕ) (text : List ℕ)
    → tag < 2 ^ 28
    → push_string_field encode bytes tag text
      ≡ ok (bytes ++ encode_entry (chunk_entry tag (encode text)))
unfolding push_string_field push_message_field
push_string_field_lem encode bytes tag text h = push_message_field_lem bytes tag (encode text) h

pub push_int32_field-number :
    (bytes : List ℕ) (tag n : ℕ)
    → tag < 2 ^ 28
    → push_int32_field bytes tag (number (pos n)) ≡ ok (bytes ++ encode_entry (varint_entry tag n))
unfolding push_int32_field unsigned64 push_varint_field
push_int32_field-number bytes tag n h = push_varint_field-number bytes tag n h

pub encode_message-append :
    (es fs : List Entry) → encode_message (es ++ fs) ≡ encode_message es ++ encode_message fs
unfolding encode_message
encode_message-append [] fs = refl
encode_message-append (e ∷ es) fs = simp (encode_message-append es fs, append_assoc)

encode_message-snoc :
    (es : List Entry) (e : Entry)
    → encode_message es ++ encode_entry e ≡ encode_message (es ++ (e ∷ []))
unfolding encode_message
encode_message-snoc es e =
    sym (encode_message-append es (e ∷ []) ∙ rw (append-nil (encode_entry e)) refl)

-- Pushing behind a message writes one more entry.
module _ (es : List Entry) (tag : ℕ) (small : tag < 2 ^ 28) where
  pub push_varint_field-message :
      (n : ℕ)
      → push_varint_field (encode_message es) tag (number (pos n))
        ≡ ok (encode_message (es ++ (varint_entry tag n ∷ [])))
  push_varint_field-message n =
      push_varint_field-number (encode_message es) tag n small
      ∙ ap ok (encode_message-snoc es (varint_entry tag n))

  pub push_bigint_field-message :
      (n : ℕ)
      → push_varint_field (encode_message es) tag (bigint (pos n))
        ≡ ok (encode_message (es ++ (varint_entry tag n ∷ [])))
  push_bigint_field-message n =
      push_varint_field-bigint (encode_message es) tag n small
      ∙ ap ok (encode_message-snoc es (varint_entry tag n))

  pub push_message_field-message :
      (payload : List ℕ)
      → push_message_field (encode_message es) tag payload
        ≡ ok (encode_message (es ++ (chunk_entry tag payload ∷ [])))
  push_message_field-message payload =
      push_message_field_lem (encode_message es) tag payload small
      ∙ ap ok (encode_message-snoc es (chunk_entry tag payload))

  pub push_string_field-message :
      (encode : List ℕ → List ℕ) (text : List ℕ)
      → push_string_field encode (encode_message es) tag text
        ≡ ok (encode_message (es ++ (chunk_entry tag (encode text) ∷ [])))
  push_string_field-message encode text =
      push_string_field_lem encode (encode_message es) tag text small
      ∙ ap ok (encode_message-snoc es (chunk_entry tag (encode text)))

-- A message whose tags are allowed and whose varints are uint64s. Its parts are not longer than
-- the whole, so the limit on the whole bounds them.
abbrev pub Small : Entry → Type 0
Small (varint_entry tag n) = IsTag tag × (n < 2 ^ 64)
Small (chunk_entry tag chunk) = IsTag tag

pub length-chunk-le :
    (tag : ℕ) (chunk : List ℕ) → length chunk ≤ length (encode_entry (chunk_entry tag chunk))
unfolding encode_entry
length-chunk-le tag chunk = omega (
  arith,
  length-append (varint_bytes (tag * 8 + 2)) (varint_bytes (length chunk) ++ chunk),
  length-append (varint_bytes (length chunk)) chunk,
)

pub Fits-of_length :
    (limit : ℕ) (es : List Entry)
    → limit < 2 ^ 53
    → All Small es
    → length (encode_message es) ≤ limit
    → All (Fits limit) es
unfolding encode_message
Fits-of_length limit [] hl a h = tt
Fits-of_length limit (varint_entry tag n ∷ es) hl (a, as') h = (
  a,
  Fits-of_length limit es hl as'
      (omega (arith, length-append (encode_entry (varint_entry tag n)) (encode_message es))),
)
Fits-of_length limit (chunk_entry tag chunk ∷ es) hl (a, as') h =
    let sum = length-append (encode_entry (chunk_entry tag chunk)) (encode_message es) in
    (
      (a, omega (arith, sum, length-chunk-le tag chunk), hl),
      Fits-of_length limit es hl as' (omega (arith, sum)),
    )

-- The first field of a message.
pub push_message_field-nil :
    (tag : ℕ) (payload : List ℕ)
    → tag < 2 ^ 28
    → push_message_field [] tag payload ≡ ok (encode_message (chunk_entry tag payload ∷ []))
unfolding encode_message
push_message_field-nil tag payload small = push_message_field-message [] tag small payload

pub push_string_field-nil :
    (encode : List ℕ → List ℕ) (tag : ℕ) (text : List ℕ)
    → tag < 2 ^ 28
    → push_string_field encode [] tag text
      ≡ ok (encode_message (chunk_entry tag (encode text) ∷ []))
unfolding encode_message
push_string_field-nil encode tag text small = push_string_field-message [] tag small encode text

pub push_varint_field-nil :
    (tag n : ℕ)
    → tag < 2 ^ 28
    → push_varint_field [] tag (number (pos n)) ≡ ok (encode_message (varint_entry tag n ∷ []))
unfolding encode_message
push_varint_field-nil tag n small = push_varint_field-message [] tag small n
