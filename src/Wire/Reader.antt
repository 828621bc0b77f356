-- ===== src/Wire/Reader.antt =====
-- `readProtobufFields` reads back every message that the push functions wrote.
use uurc_web_new.Prelude.{
  ℕ, zero, suc, ◌+◌, ◌-◌, ◌*◌, ◌/◌, ◌%◌, ◌^◌, ◌≤◌, ◌<◌, ◌≡◌, refl, sym, ap, ◌∙◌, some, List, [],
  ◌∷◌, ◌++◌, append_assoc, append-nil, length, length-append, length-drop, drop, arith, drop-append,
  take-append_length, All, lt→ltb, lt→leb-false, le→ltb-false,
}
use uurc_web_new.Wire.{
  ProtobufField, ProtobufReadOptions, varint_field, data_field, subarray, field_read, read_field,
  read_payload, read_varint_payload, read_data_payload, read_loop, read_fields, bytes_limit,
  max_safe_integer, fields_limit,
}
use uurc_web_new.Wire.Varint.{varint_bytes, read-varint_bytes, length-varint_bytes-pos}
use uurc_web_new.Wire.Entries.{
  Entry, varint_entry, chunk_entry, encode_entry, encode_message, IsTag, Fits, StandsFor, StandFor,
}

module _ (limit : ℕ) (bytes : List ℕ) where
  -- A key in front of the payload of the wire type `w`.
  read_key :
      (offset key tag w : ℕ) (rest : List ℕ)
      → IsTag tag
      → w < 8
      → key ≡ tag * 8 + w
      → drop offset bytes ≡ varint_bytes key ++ rest
      → read_field limit bytes offset
        ≡ read_payload limit bytes tag w (offset + length (varint_bytes key))
  unfolding read_field
  read_key offset key tag w rest t hw e h =
      let q : key / 8 ≡ tag = omega arith in
      let r : key % 8 ≡ w = omega arith in
      rw (read-varint_bytes key offset bytes rest h (omega arith), read_field, q, r) (ground arith)

  read_varint_entry :
      (offset tag n : ℕ) (rest : List ℕ)
      → IsTag tag
      → n < 2 ^ 64
      → drop offset bytes ≡ encode_entry (varint_entry tag n) ++ rest
      → read_field limit bytes offset
        ≡ field_read (varint_field tag 0 n) (offset + length (encode_entry (varint_entry tag n)))
  unfolding encode_entry read_payload read_varint_payload
  read_varint_entry offset tag n rest t hn h =
      let key : List ℕ = varint_bytes (tag * 8) in
      let h1 : drop offset bytes ≡ key ++ (varint_bytes n ++ rest) = h ∙ append_assoc key _ _ in
      let h2 : drop (offset + length key) bytes ≡ varint_bytes n ++ rest =
        drop-append offset bytes key _ h1 in
      rw
        (
          read_key offset (tag * 8) tag 0 (varint_bytes n ++ rest) t (omega arith) (omega arith) h1,
          read-varint_bytes n (offset + length key) bytes rest h2 hn,
          read_varint_payload,
        )
        (ap (field_read (varint_field tag 0 n)) (omega (arith, length-append key (varint_bytes n))))

  read_chunk_entry :
      (offset tag : ℕ) (chunk rest : List ℕ)
      → IsTag tag
      → length chunk ≤ limit
      → limit < 2 ^ 53
      → drop offset bytes ≡ encode_entry (chunk_entry tag chunk) ++ rest
      → (start : ℕ) × (read_field limit bytes offset
          ≡ field_read
              (data_field tag 2 start (length chunk))
              (offset + length (encode_entry (chunk_entry tag chunk))))
        × (subarray bytes start (length chunk) ≡ chunk)
  unfolding encode_entry read_payload read_data_payload
  read_chunk_entry offset tag chunk rest t hl hs h =
      let key : List ℕ = varint_bytes (tag * 8 + 2) in
      let size : List ℕ = varint_bytes (length chunk) in
      let h1 : drop offset bytes ≡ key ++ (size ++ (chunk ++ rest)) = h ∙ simp append_assoc in
      let h2 : drop (offset + length key) bytes ≡ size ++ (chunk ++ rest) =
        drop-append offset bytes key _ h1 in
      let start : ℕ = offset + length key + length size in
      let h3 : drop start bytes ≡ chunk ++ rest =
        drop-append (offset + length key) bytes size _ h2 in
      let room : length chunk ≤ length bytes - start = omega (
        arith,
        ap (λ (l : List ℕ). length l) h3,
        length-append chunk rest,
        length-drop start bytes,
      ) in
      (
        start,
        rw
            (
              read_key offset (tag * 8 + 2) tag 2 _ t (omega arith) refl h1,
              read-varint_bytes (length chunk) (offset + length key) bytes _ h2 (omega arith),
              read_data_payload,
            )
            (rw
              (
                le→ltb-false max_safe_integer (length chunk) (omega arith),
                le→ltb-false (length bytes - start) (length chunk) room,
                le→ltb-false limit (length chunk) hl,
              )
              (ap (field_read (data_field tag 2 start (length chunk)))
                (omega (arith, length-append key (size ++ chunk), length-append size chunk)))),
        rw h3 (take-append_length chunk rest),
      )

  -- One round reads back one entry, and ends behind it.
  read_entry :
      (offset : ℕ) (e : Entry) (rest : List ℕ)
      → Fits limit e
      → drop offset bytes ≡ encode_entry e ++ rest
      → (field : ProtobufField) × (read_field limit bytes offset
          ≡ field_read field (offset + length (encode_entry e)))
        × StandsFor bytes field e
  read_entry offset (varint_entry tag n) rest (t, hn) h =
      (varint_field tag 0 n, read_varint_entry offset tag n rest t hn h, refl)
  read_entry offset (chunk_entry tag chunk) rest (t, hl, hs) h =
      let (start, r, s) = read_chunk_entry offset tag chunk rest t hl hs h in
      (data_field tag 2 start (length chunk), r, (start, refl, s))

length-encode_entry-pos : (e : Entry) → 0 < length (encode_entry e)
unfolding encode_entry
length-encode_entry-pos (varint_entry tag n) =
    omega
      (arith, length-append (varint_bytes (tag * 8)) (varint_bytes n), length-varint_bytes-pos n)
length-encode_entry-pos (chunk_entry tag chunk) = omega (
  arith,
  length-append (varint_bytes (tag * 8 + 2)) (varint_bytes (length chunk) ++ chunk),
  length-varint_bytes-pos (tag * 8 + 2),
)

-- A round that reads a field, where there is room for it and fuel.
read_loop-step :
    (fuel : ℕ) (bytes : List ℕ) (options : ProtobufReadOptions) (offset : ℕ)
    (fields : List ProtobufField) (field : ProtobufField) (next : ℕ)
    → offset < length bytes
    → length fields < fields_limit options
    → read_field (bytes_limit options) bytes offset ≡ field_read field next
    → read_loop (suc fuel) bytes options offset fields
      ≡ read_loop fuel bytes options next (fields ++ (field ∷ []))
unfolding read_loop
read_loop-step fuel bytes options offset fields field next h hf e =
    rw (e, read_loop)
      (rw (lt→ltb offset (length bytes) h, lt→leb-false (fields_limit options) (length fields) hf)
        refl)

-- Behind the last byte the loop ends, with or without fuel.
pub read_loop-done :
    (fuel : ℕ) (bytes : List ℕ) (options : ProtobufReadOptions) (offset : ℕ)
    (fields : List ProtobufField)
    → length bytes ≤ offset
    → read_loop fuel bytes options offset fields ≡ some fields
unfolding read_loop
read_loop-done zero bytes options offset fields h = refl
read_loop-done (suc fuel) bytes options offset fields h =
    rw (le→ltb-false offset (length bytes) h) refl

read_loop-message :
    (msg : List Entry) (fuel : ℕ) (bytes : List ℕ) (options : ProtobufReadOptions) (offset : ℕ)
    (fields : List ProtobufField)
    → All (Fits (bytes_limit options)) msg
    → length fields + length msg ≤ fields_limit options
    → length (encode_message msg) ≤ fuel
    → drop offset bytes ≡ encode_message msg
    → (read : List ProtobufField) × (read_loop fuel bytes options offset fields
        ≡ some (fields ++ read))
      × StandFor bytes read msg
unfolding encode_message
read_loop-message [] fuel bytes options offset fields a hm hf h = (
  [],
  read_loop-done fuel bytes options offset fields
        (omega (arith, ap (λ (l : List ℕ). length l) h, length-drop offset bytes))
      ∙ ap some (sym (append-nil fields)),
  tt,
)
read_loop-message (e ∷ es) zero bytes options offset fields a hm hf h =
    absurd
      (omega (arith, length-append (encode_entry e) (encode_message es), length-encode_entry-pos e))
read_loop-message (e ∷ es) (suc fuel) bytes options offset fields (ae, aes) hm hf h =
    let (field, r, st) = read_entry (bytes_limit options) bytes offset e (encode_message es) ae h in
    let (read, rs, sts) =
      read_loop-message es fuel bytes options (offset + length (encode_entry e))
        (fields ++ (field ∷ [])) aes (omega (arith, length-append fields (field ∷ [])))
        (omega
          (arith, length-append (encode_entry e) (encode_message es), length-encode_entry-pos e))
        (drop-append offset bytes (encode_entry e) (encode_message es) h) in
    (
      field ∷ read,
      read_loop-step fuel bytes options offset fields field _
            (omega (
              arith,
              ap (λ (l : List ℕ). length l) h,
              length-drop offset bytes,
              length-append (encode_entry e) (encode_message es),
              length-encode_entry-pos e,
            ))
            (omega arith) r
          ∙ rs
          ∙ ap some (append_assoc fields (field ∷ []) read),
      (st, sts),
    )

-- The reader returns exactly the fields of a message that the push functions wrote, in order, if
-- there are not more of them than the options allow, their numbers are from 1 to 2 ^ 28 - 1, a
-- varint is a uint64, and no value is longer than the limit, itself less than 2 ^ 53.
pub read_fields-message :
    (msg : List Entry) (options : ProtobufReadOptions)
    → All (Fits (bytes_limit options)) msg
    → length msg ≤ fields_limit options
    → (read : List ProtobufField) × (read_fields (encode_message msg) options ≡ some read)
      × StandFor (encode_message msg) read msg
unfolding read_fields
read_fields-message msg options a hm =
    read_loop-message msg (length (encode_message msg)) (encode_message msg) options 0 [] a
      (omega arith) (omega arith) refl
