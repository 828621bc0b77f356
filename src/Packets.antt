-- ===== src/Packets.antt =====
-- cloudflare/src/signal/socketIoWire.ts: the byte arrays of a packet's data, which are sent apart from it
-- as attachments, and the prefix of a binary frame. The texts of packets are left out.
pub mod Plain
pub mod RoundTrip
pub mod Tests
use Prim.Native.String.{String}
use uurc_web_new.Prelude.{
  ℕ, suc, Bool, true, false, ◌&&◌, Option, none, some, List, [], ◌∷◌, ◌++◌, length, get_elem?,
  if◌then◌else◌, ◌==◌,
}
use uurc_web_new.Prelude.Int.{pos}
use uurc_web_new.Json.{
  Json, JsNumber, Items, Fields, undefined, null, bool, num, whole, str, bin, arr, obj, nil, cons,
  end, field, prop,
}

abbrev pub Buffers : Type 0
Buffers = List (List ℕ)

-- `{ _placeholder: true, num }`
abbrev pub placeholder : ℕ → Json
placeholder n = obj (field "_placeholder" (bool true) (field "num" (num (whole (pos n))) end))

-- `deconstructBinaryValue`. The buffers that were pushed are returned.
unfoldable mutual
  pub deconstruct_value : Json → Buffers → Json × Buffers
  deconstruct_value (bin bytes) buffers = (placeholder (length buffers), buffers ++ bytes ∷ [])
  deconstruct_value (arr vs) buffers =
      (arr (deconstruct_items vs buffers).0, (deconstruct_items vs buffers).1)
  deconstruct_value (obj fs) buffers =
      (obj (deconstruct_fields fs buffers).0, (deconstruct_fields fs buffers).1)
  deconstruct_value v buffers = (v, buffers)

  pub deconstruct_items : Items → Buffers → Items × Buffers
  deconstruct_items nil buffers = (nil, buffers)
  deconstruct_items (cons v vs) buffers =
      let first = deconstruct_value v buffers in
      let rest = deconstruct_items vs first.1 in (cons first.0 rest.0, rest.1)

  pub deconstruct_fields : Fields → Buffers → Fields × Buffers
  deconstruct_fields end buffers = (end, buffers)
  deconstruct_fields (field key v fs) buffers =
      let first = deconstruct_value v buffers in
      let rest = deconstruct_fields fs first.1 in (field key first.0 rest.0, rest.1)

-- `deconstructBinary`
unfoldable pub deconstruct_binary : Json → Json × Buffers
deconstruct_binary v = deconstruct_value v []

abbrev pub is_true : Json → Bool
is_true (bool b) = b
is_true _ = false

abbrev pub is_number : Json → Bool
is_number (num n) = true
is_number _ = false

-- `record._placeholder === true && typeof record.num === "number"`
abbrev pub looks_like_placeholder : Fields → Bool
looks_like_placeholder fs = is_true (prop "_placeholder" fs) && is_number (prop "num" fs)

abbrev pub buffer_or : Option (List ℕ) → Json → Json
buffer_or none v = v
buffer_or (some bytes) v = bin bytes

-- `buffers[record.num] ?? value`
abbrev pub buffer_at : Json → Buffers → Json → Json
buffer_at (num (whole (pos n))) buffers v = buffer_or (get_elem? buffers n) v
buffer_at _ buffers v = v

-- The entries of a byte array. `index_name` writes an index.
abbrev pub byte_fields : (ℕ → String) → ℕ → List ℕ → Fields
byte_fields index_name i [] = end
byte_fields index_name i (b ∷ bytes) =
    field (index_name i) (num (whole (pos b))) (byte_fields index_name (suc i) bytes)

module _ (index_name : ℕ → String) where
  -- `reconstructBinaryPlaceholders`
  unfoldable mutual
    pub reconstruct : Json → Buffers → Json
    reconstruct (obj fs) buffers =
        let rest = reconstruct_fields fs buffers in
        if looks_like_placeholder fs then buffer_at (prop "num" fs) buffers (obj fs) else obj rest
    reconstruct (arr vs) buffers = arr (reconstruct_items vs buffers)
    reconstruct (bin bytes) buffers = obj (byte_fields index_name 0 bytes)
    reconstruct v buffers = v

    pub reconstruct_items : Items → Buffers → Items
    reconstruct_items nil buffers = nil
    reconstruct_items (cons v vs) buffers =
        cons (reconstruct v buffers) (reconstruct_items vs buffers)

    pub reconstruct_fields : Fields → Buffers → Fields
    reconstruct_fields end buffers = end
    reconstruct_fields (field key v fs) buffers =
        field key (reconstruct v buffers) (reconstruct_fields fs buffers)

-- `ENGINE_IO_BINARY_FRAME_PREFIX`, `prefixEngineIoBinaryFrame`, `stripEngineIoBinaryFramePrefix`
abbrev pub frame_prefix : ℕ
frame_prefix = 4

unfoldable pub prefix_frame : List ℕ → List ℕ
prefix_frame bytes = frame_prefix ∷ bytes

unfoldable pub strip_frame : List ℕ → List ℕ
strip_frame [] = []
strip_frame (b ∷ bytes) = if b == frame_prefix then bytes else b ∷ bytes
