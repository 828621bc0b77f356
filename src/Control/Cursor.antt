-- ===== src/Control/Cursor.antt =====
-- The image of a cursor's shape is bounded, whatever the bytes are.
use uurc_web_new.Prelude.{
  ℕ, ◌≤◌, ◌≡◌, refl, subst, true, ◌&&◌, Option, none, some, List, [], ◌∷◌, length, take, drop,
  length-take, leb→le, ◌==◌, arith, Bool-cases, Option-cases, inl, inr,
}
use mathlib.Core.Option.{some-injective}
use uurc_web_new.Wire.{
  ProtobufField, no_options, read_fields, field_bytes, length_delimited_bytes,
  length_delimited_type, max_cursor_image_bytes,
}
use uurc_web_new.Control.Model.{Platform, CursorShape, foldl, put}
use uurc_web_new.Control.Decode.{at_most, cursor_step, no_cursor, decode_cursor_shape}

field_bytes-le :
    (bytes : List ℕ) (start size : Option ℕ) (limit : ℕ) (v : List ℕ)
    → at_most limit size ≡ true
    → field_bytes bytes start size ≡ some v
    → length v ≤ limit
field_bytes-le bytes none none limit v h e = ground arith
field_bytes-le bytes none (some n) limit v h e = ground arith
field_bytes-le bytes (some s) none limit v h e = ground arith
field_bytes-le bytes (some s) (some n) limit v h e =
    let same : take n (drop s bytes) ≡ v = ground (arith, e) in
    rw (← same) (omega (arith, length-take n (drop s bytes), leb→le n limit h))

length_delimited_bytes-le :
    (bytes : List ℕ) (f : ProtobufField) (limit : ℕ) (v : List ℕ)
    → at_most limit f.byte_length ≡ true
    → length_delimited_bytes bytes f ≡ some v
    → length v ≤ limit
unfolding length_delimited_bytes
length_delimited_bytes-le bytes f limit v h e =
    elim (Bool-cases (f.wire_type == length_delimited_type)) [
      | inl y ↦
          field_bytes-le bytes f.data_offset f.byte_length limit v h
            (rw (y, length_delimited_bytes) at e)
      | inr n ↦ ground (arith, rw (n, length_delimited_bytes) at e)
    ]

-- What a shape's bytes are at most.
abbrev Bounded : Option (List ℕ) → Type 0
Bounded none = Unit
Bounded (some v) = length v ≤ max_cursor_image_bytes

put-Bounded :
    (old new : Option (List ℕ))
    → Bounded old
    → ((v : List ℕ) → new ≡ some v → length v ≤ max_cursor_image_bytes)
    → Bounded (put old new)
put-Bounded old none h f = h
put-Bounded old (some v) h f = f v refl

module _ (platform : Platform) where
  step-Bounded :
      (bytes : List ℕ) (shape : CursorShape platform.Double) (f : ProtobufField)
      → Bounded shape.byte_value
      → Bounded (cursor_step platform bytes shape f).byte_value
  step-Bounded bytes shape f h =
      elim (Bool-cases (f.tag == 5 && at_most max_cursor_image_bytes f.byte_length)) [
        | inl y ↦ rw y (
            put-Bounded shape.byte_value (length_delimited_bytes bytes f) h (λ v e.
              length_delimited_bytes-le bytes f max_cursor_image_bytes v (ground (arith, y)) e))
        | inr n ↦ rw n h
      ]

  foldl-Bounded :
      (bytes : List ℕ) (shape : CursorShape platform.Double) (fs : List ProtobufField)
      → Bounded shape.byte_value
      → Bounded (foldl (cursor_step platform bytes) shape fs).byte_value
  foldl-Bounded bytes shape [] h = h
  foldl-Bounded bytes shape (f ∷ fs) h =
      foldl-Bounded bytes (cursor_step platform bytes shape f) fs (step-Bounded bytes shape f h)

  -- The image of a cursor's shape that is decoded, from any bytes, has at most
  -- `maxCursorImageBytes` bytes.
  pub decode_cursor_shape-bound :
      (bytes image : List ℕ) (shape : CursorShape platform.Double)
      → decode_cursor_shape platform bytes ≡ some shape
      → shape.byte_value ≡ some image
      → length image ≤ max_cursor_image_bytes
  unfolding decode_cursor_shape
  decode_cursor_shape-bound bytes image shape h e =
      elim (Option-cases (read_fields bytes no_options)) [
        | inl n ↦ ground (arith, rw (n, decode_cursor_shape) at h)
        | inr (fs, r) ↦
            let same : foldl (cursor_step platform bytes) (no_cursor platform) fs ≡ shape =
              some-injective _ _ (rw (r, decode_cursor_shape) at h) in
            subst Bounded e (
              subst (λ (s : CursorShape platform.Double). Bounded s.byte_value) same
                (foldl-Bounded bytes (no_cursor platform) fs tt))
      ]
