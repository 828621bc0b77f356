-- ===== src/Packets/Plain.antt =====
-- What is sent as text has no byte array left in it, and a placeholder for each of those that there were.
use uurc_web_new.Prelude.{ℕ, ◌+◌, ◌≡◌, refl, [], ◌∷◌, length, length-append, arith}
use uurc_web_new.Json.{Json, Items, Fields, bin, arr, obj, nil, cons, end, field}
use uurc_web_new.Packets.{
  Buffers, deconstruct_value, deconstruct_items, deconstruct_fields, deconstruct_binary,
}

-- The number of byte arrays in a value.
abbrev mutual
  pub byte_arrays : Json → ℕ
  byte_arrays (bin bytes) = 1
  byte_arrays (arr vs) = byte_arrays_in_items vs
  byte_arrays (obj fs) = byte_arrays_in_fields fs
  byte_arrays v = 0

  pub byte_arrays_in_items : Items → ℕ
  byte_arrays_in_items nil = 0
  byte_arrays_in_items (cons v vs) = byte_arrays v + byte_arrays_in_items vs

  pub byte_arrays_in_fields : Fields → ℕ
  byte_arrays_in_fields end = 0
  byte_arrays_in_fields (field key v fs) = byte_arrays v + byte_arrays_in_fields fs

mutual
  unfolding deconstruct_value deconstruct_items deconstruct_fields

  none_left : (v : Json) (bs : Buffers) → byte_arrays (deconstruct_value v bs).0 ≡ 0
  none_left (bin bytes) bs = omega arith
  none_left (arr vs) bs = none_left_items vs bs
  none_left (obj fs) bs = none_left_fields fs bs
  none_left _ bs = refl

  none_left_items :
      (vs : Items) (bs : Buffers) → byte_arrays_in_items (deconstruct_items vs bs).0 ≡ 0
  none_left_items nil bs = refl
  none_left_items (cons v vs) bs =
      omega (arith, none_left v bs, none_left_items vs (deconstruct_value v bs).1)

  none_left_fields :
      (fs : Fields) (bs : Buffers) → byte_arrays_in_fields (deconstruct_fields fs bs).0 ≡ 0
  none_left_fields end bs = refl
  none_left_fields (field key v fs) bs =
      omega (arith, none_left v bs, none_left_fields fs (deconstruct_value v bs).1)

mutual
  unfolding deconstruct_value deconstruct_items deconstruct_fields

  all_pushed :
      (v : Json) (bs : Buffers) → length (deconstruct_value v bs).1 ≡ length bs + byte_arrays v
  all_pushed (bin bytes) bs = omega (arith, length-append bs (bytes ∷ []))
  all_pushed (arr vs) bs = all_pushed_items vs bs
  all_pushed (obj fs) bs = all_pushed_fields fs bs
  all_pushed _ bs = omega arith

  all_pushed_items :
      (vs : Items) (bs : Buffers)
      → length (deconstruct_items vs bs).1 ≡ length bs + byte_arrays_in_items vs
  all_pushed_items nil bs = omega arith
  all_pushed_items (cons v vs) bs =
      omega (arith, all_pushed v bs, all_pushed_items vs (deconstruct_value v bs).1)

  all_pushed_fields :
      (fs : Fields) (bs : Buffers)
      → length (deconstruct_fields fs bs).1 ≡ length bs + byte_arrays_in_fields fs
  all_pushed_fields end bs = omega arith
  all_pushed_fields (field key v fs) bs =
      omega (arith, all_pushed v bs, all_pushed_fields fs (deconstruct_value v bs).1)

-- What is left after the byte arrays were taken out has none, and there are as many attachments as
-- there were byte arrays.
pub deconstruct_binary-byte_arrays :
    (v : Json)
    → (byte_arrays (deconstruct_binary v).0 ≡ 0) × (length (deconstruct_binary v).1 ≡ byte_arrays v)
unfolding deconstruct_binary
deconstruct_binary-byte_arrays v = (none_left v [], omega (arith, all_pushed v []))
