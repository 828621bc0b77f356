-- ===== src/Payloads/Twice.antt =====
-- A payload that was normalised stays as it is.
use Prim.Native.String.{String}
use text.Mathlib.Text.{◌==◌ as str_eq}
use uurc_web_new.Prelude.{
  ℕ, ◌≡◌, refl, ap, ◌∙◌, inl, inr, none, some, List, Bool-cases, Option-cases, if◌then◌else◌,
}
use uurc_web_new.Json.{Json, Items, Fields, bin, arr, obj, nil, cons, end, field, prop}
use uurc_web_new.Payloads.{
  Codec, is_text, decoded, to_binary, binary_payload, binary_or, normalize, normalize_items,
  normalize_fields,
}

-- The Base64 text of some bytes is read back as the bytes.
abbrev pub IsBack : Codec → List ℕ → Type 0
IsBack codec bytes = codec.decode_base64 (codec.encode_base64 bytes) ≡ bytes

-- It is so for every byte array of a value, and for what its binary payloads hold.
abbrev mutual
  pub AreBack : Codec → Json → Type 0
  AreBack codec (bin bytes) = IsBack codec bytes
  AreBack codec (arr vs) = ItemsAreBack codec vs
  AreBack codec (obj fs) =
      ((bytes : List ℕ) → to_binary codec (obj fs) ≡ some bytes → IsBack codec bytes)
      × FieldsAreBack codec fs
  AreBack codec _ = Unit {0}

  pub ItemsAreBack : Codec → Items → Type 0
  ItemsAreBack codec nil = Unit {0}
  ItemsAreBack codec (cons v vs) = AreBack codec v × ItemsAreBack codec vs

  pub FieldsAreBack : Codec → Fields → Type 0
  FieldsAreBack codec end = Unit {0}
  FieldsAreBack codec (field key v fs) = AreBack codec v × FieldsAreBack codec fs

module _ (codec : Codec) where
  binary_payload_twice :
      (bytes : List ℕ)
      → IsBack codec bytes
      → normalize codec (binary_payload codec bytes) ≡ binary_payload codec bytes
  unfolding normalize to_binary
  binary_payload_twice bytes b = ap (binary_payload codec) b

  -- What a text of a field is does not change.
  is_text-normalize : (text : String) (v : Json) → is_text text (normalize codec v) ≡ is_text text v
  unfolding normalize
  is_text-normalize text (obj fs) = elim (Option-cases (to_binary codec (obj fs))) [
    | inl n ↦ rw n refl
    | inr (bytes, y) ↦ rw y refl
  ]
  is_text-normalize text _ = refl

  decoded-normalize : (v : Json) → decoded codec (normalize codec v) ≡ decoded codec v
  unfolding normalize
  decoded-normalize (obj fs) = elim (Option-cases (to_binary codec (obj fs))) [
    | inl n ↦ rw n refl
    | inr (bytes, y) ↦ rw y refl
  ]
  decoded-normalize _ = refl

  prop-normalize_fields :
      (key : String) (fs : Fields)
      → prop key (normalize_fields codec fs) ≡ normalize codec (prop key fs)
  unfolding normalize_fields
  prop-normalize_fields key end = refl
  prop-normalize_fields key (field k v fs) = elim (Bool-cases (str_eq k key)) [
    | inl y ↦ rw y refl
    | inr n ↦ rw n (prop-normalize_fields key fs)
  ]

  to_binary-normalize_fields :
      (fs : Fields) → to_binary codec (obj (normalize_fields codec fs)) ≡ to_binary codec (obj fs)
  unfolding to_binary
  to_binary-normalize_fields fs =
      ap
        (λ v.
          if is_text "binary" v
          then decoded codec (prop "base64" (normalize_fields codec fs))
          else none)
        (prop-normalize_fields "kind" fs)
      ∙ ap (λ b. if b then decoded codec (prop "base64" (normalize_fields codec fs)) else none)
          (is_text-normalize "binary" (prop "kind" fs))
      ∙ ap (λ o. if is_text "binary" (prop "kind" fs) then o else none)
          (ap (decoded codec) (prop-normalize_fields "base64" fs)
            ∙ decoded-normalize (prop "base64" fs))

  mutual
    unfolding normalize normalize_items normalize_fields

    twice : (v : Json) → AreBack codec v → normalize codec (normalize codec v) ≡ normalize codec v
    twice (bin bytes) b = binary_payload_twice bytes b
    twice (arr vs) b = ap arr (items_twice vs b)
    twice (obj fs) b = elim (Option-cases (to_binary codec (obj fs))) [
      | inl n ↦ rw n (
          ap (λ o. binary_or codec o (obj (normalize_fields codec (normalize_fields codec fs))))
            (to_binary-normalize_fields fs ∙ n)
          ∙ ap obj (fields_twice fs b.1))
      | inr (bytes, y) ↦ rw y (binary_payload_twice bytes (b.0 bytes y))
    ]
    twice _ b = refl

    items_twice :
        (vs : Items)
        → ItemsAreBack codec vs
        → normalize_items codec (normalize_items codec vs) ≡ normalize_items codec vs
    items_twice nil b = refl
    items_twice (cons v vs) b =
        ap (λ u. cons u (normalize_items codec (normalize_items codec vs))) (twice v b.0)
        ∙ ap (cons (normalize codec v)) (items_twice vs b.1)

    fields_twice :
        (fs : Fields)
        → FieldsAreBack codec fs
        → normalize_fields codec (normalize_fields codec fs) ≡ normalize_fields codec fs
    fields_twice end b = refl
    fields_twice (field key v fs) b =
        ap (λ u. field key u (normalize_fields codec (normalize_fields codec fs))) (twice v b.0)
        ∙ ap (field key (normalize codec v)) (fields_twice fs b.1)

  -- Normalising a payload a second time changes nothing, if the Base64 of its byte arrays, and of
  -- what its binary payloads hold, is read back as the same bytes.
  pub normalize-normalize :
      (v : Json) → AreBack codec v → normalize codec (normalize codec v) ≡ normalize codec v
  normalize-normalize v b = twice v b
