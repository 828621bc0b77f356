-- ===== src/Wire/Views.antt =====
-- What the fields of a written message show: the tag, the wire type, the varint and the bytes of
-- the entry that each stands for.
use uurc_web_new.Prelude.{
  ℕ, ◌≡◌, ap, ◌∙◌, Bool, true, false, Option, none, some, List, [], ◌∷◌, select, if◌then◌else◌,
  Bool-cases, inl, inr,
}
use uurc_web_new.Wire.{
  ProtobufField, length_delimited_bytes, varint_field, data_field, length_delimited_type,
  varint_type,
}
use uurc_web_new.Wire.Entries.{Entry, varint_entry, chunk_entry, StandsFor, StandFor}

abbrev pub entry_tag : Entry → ℕ
entry_tag (varint_entry tag n) = tag
entry_tag (chunk_entry tag chunk) = tag

abbrev pub entry_varint : Entry → Option ℕ
entry_varint (varint_entry tag n) = some n
entry_varint (chunk_entry tag chunk) = none

abbrev pub entry_chunk : Entry → Option (List ℕ)
entry_chunk (varint_entry tag n) = none
entry_chunk (chunk_entry tag chunk) = some chunk

abbrev pub is_chunk : Entry → Bool
is_chunk (varint_entry tag n) = false
is_chunk (chunk_entry tag chunk) = true

module _ (bytes : List ℕ) where
  pub StandsFor-tag : (f : ProtobufField) (e : Entry) → StandsFor bytes f e → f.tag ≡ entry_tag e
  unfolding varint_field data_field
  StandsFor-tag f (varint_entry tag n) h = ap (λ (g : ProtobufField). g.tag) h
  StandsFor-tag f (chunk_entry tag chunk) (s, h, _) = ap (λ (g : ProtobufField). g.tag) h

  pub StandsFor-wire_type :
      (f : ProtobufField) (e : Entry)
      → StandsFor bytes f e
      → f.wire_type ≡ (if is_chunk e then length_delimited_type else varint_type)
  unfolding varint_field data_field
  StandsFor-wire_type f (varint_entry tag n) h = ap (λ (g : ProtobufField). g.wire_type) h
  StandsFor-wire_type f (chunk_entry tag chunk) (s, h, _) =
      ap (λ (g : ProtobufField). g.wire_type) h

  pub StandsFor-varint :
      (f : ProtobufField) (e : Entry) → StandsFor bytes f e → f.varint ≡ entry_varint e
  unfolding varint_field data_field
  StandsFor-varint f (varint_entry tag n) h = ap (λ (g : ProtobufField). g.varint) h
  StandsFor-varint f (chunk_entry tag chunk) (s, h, _) = ap (λ (g : ProtobufField). g.varint) h

  pub StandsFor-bytes :
      (f : ProtobufField) (e : Entry)
      → StandsFor bytes f e
      → length_delimited_bytes bytes f ≡ entry_chunk e
  unfolding varint_field data_field length_delimited_bytes
  StandsFor-bytes f (varint_entry tag n) h =
      ap (λ (g : ProtobufField). length_delimited_bytes bytes g) h
  StandsFor-bytes f (chunk_entry tag chunk) (s, h, q) =
      ap (λ (g : ProtobufField). length_delimited_bytes bytes g) h ∙ ap some q

  -- Filtering by the tag keeps the two lists in step.
  pub StandFor-select :
      (p : ℕ → Bool) (fs : List ProtobufField) (es : List Entry)
      → StandFor bytes fs es
      → StandFor bytes (select (λ f. p f.tag) fs) (select (λ e. p (entry_tag e)) es)
  StandFor-select p [] [] h = tt
  StandFor-select p [] (e ∷ es) h = absurd h
  StandFor-select p (f ∷ fs) [] h = absurd h
  StandFor-select p (f ∷ fs) (e ∷ es) (h, hs) =
      let same : p f.tag ≡ p (entry_tag e) = ap p (StandsFor-tag f e h) in
      elim (Bool-cases (p (entry_tag e))) [
        | inl y ↦ rw (same, y) (h, StandFor-select p fs es hs)
        | inr n ↦ rw (same, n) (StandFor-select p fs es hs)
      ]
