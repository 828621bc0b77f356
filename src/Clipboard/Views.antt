-- ===== src/Clipboard/Views.antt =====
-- The reading functions of clipboardWire.ts, on the fields of a message that the push functions
-- wrote: each returns what can be read off the entries.
use uurc_web_new.Prelude.{
  ℕ, ◌≡◌, refl, ap, ◌∙◌, true, false, not, ◌||◌, Option, none, some, List, [], ◌∷◌, length, select,
  last?, any, ltb, leb, ◌==◌, if◌then◌else◌, arith, Bool-cases, inl, inr,
}
use uurc_web_new.Prelude.Options.{◌>>=◌, is_defined}
use uurc_web_new.Wire.{
  ProtobufField, length_delimited_bytes, data_field, or_default, length_delimited_type, varint_type,
}
use uurc_web_new.Wire.Entries.{Entry, varint_entry, chunk_entry, StandsFor, StandFor}
use uurc_web_new.Wire.Views.{
  entry_tag, entry_varint, entry_chunk, is_chunk, StandsFor-wire_type, StandsFor-varint,
  StandsFor-bytes, StandFor-select,
}
use uurc_web_new.Clipboard.Schema.{max_text_bytes, max_signed_int64}
use uurc_web_new.Clipboard.Fields.{
  matching, single_bytes, read_single_message_field, last_varint, read_int64, last_bytes,
  read_length_delimited_value,
}

-- What `readInt64`, `readBytes` and the single fields give, on entries.
abbrev pub entries_at : List Entry → ℕ → List Entry
entries_at es tag = select (λ e. entry_tag e == tag) es

abbrev pub last_entry_varint : List Entry → ℕ
last_entry_varint es = or_default (do e ← last? es; entry_varint e) 0

abbrev pub entry_int64 : List Entry → ℕ → Option ℕ
entry_int64 es tag =
    if any is_chunk (entries_at es tag)
    then none
    else (if leb (last_entry_varint (entries_at es tag)) max_signed_int64
        then some (last_entry_varint (entries_at es tag))
        else none)

abbrev pub only_chunk : List Entry → Option (List ℕ)
only_chunk (e ∷ []) = entry_chunk e
only_chunk _ = none

abbrev pub last_chunk : Option Entry → Option (List ℕ)
last_chunk none = some []
last_chunk (some (varint_entry tag n)) = none
last_chunk (some (chunk_entry tag chunk)) =
    if ltb max_text_bytes (length chunk) then none else some chunk

abbrev pub entry_bytes : List Entry → ℕ → Option (List ℕ)
entry_bytes es tag =
    if any (λ e. not (is_chunk e)) (entries_at es tag)
    then none
    else last_chunk (last? (entries_at es tag))

module _ (bytes : List ℕ) where
  StandsFor-last_bytes :
      (f : ProtobufField) (e : Entry)
      → StandsFor bytes f e
      → is_chunk e ≡ true
      → last_bytes bytes (some f) ≡ last_chunk (some e)
  unfolding data_field length_delimited_bytes
  StandsFor-last_bytes f (varint_entry tag n) h c = cc
  StandsFor-last_bytes f (chunk_entry tag chunk) (s, h, q) c =
      ap (λ (g : ProtobufField). last_bytes bytes (some g)) h ∙ rw q

  StandFor-any_varint :
      (fs : List ProtobufField) (es : List Entry)
      → StandFor bytes fs es
      → any (λ field. not (field.wire_type == varint_type) || not (is_defined field.varint)) fs
        ≡ any is_chunk es
  StandFor-any_varint [] [] h = refl
  StandFor-any_varint [] (e ∷ es) h = absurd h
  StandFor-any_varint (f ∷ fs) [] h = absurd h
  StandFor-any_varint (f ∷ fs) (varint_entry tag n ∷ es) (h, hs) =
      rw
        (
          StandsFor-wire_type bytes f (varint_entry tag n) h,
          StandsFor-varint bytes f (varint_entry tag n) h,
        )
        (StandFor-any_varint fs es hs)
  StandFor-any_varint (f ∷ fs) (chunk_entry tag c ∷ es) (h, hs) =
      rw (StandsFor-wire_type bytes f (chunk_entry tag c) h) refl

  StandFor-any_chunk :
      (fs : List ProtobufField) (es : List Entry)
      → StandFor bytes fs es
      → any (λ field. not (field.wire_type == length_delimited_type)) fs
        ≡ any (λ e. not (is_chunk e)) es
  StandFor-any_chunk [] [] h = refl
  StandFor-any_chunk [] (e ∷ es) h = absurd h
  StandFor-any_chunk (f ∷ fs) [] h = absurd h
  StandFor-any_chunk (f ∷ fs) (varint_entry tag n ∷ es) (h, hs) =
      rw (StandsFor-wire_type bytes f (varint_entry tag n) h) refl
  StandFor-any_chunk (f ∷ fs) (chunk_entry tag c ∷ es) (h, hs) =
      rw (StandsFor-wire_type bytes f (chunk_entry tag c) h) (StandFor-any_chunk fs es hs)

  StandFor-last_varint :
      (fs : List ProtobufField) (es : List Entry)
      → StandFor bytes fs es
      → last_varint fs ≡ last_entry_varint es
  StandFor-last_varint [] [] h = refl
  StandFor-last_varint [] (e ∷ es) h = absurd h
  StandFor-last_varint (f ∷ fs) [] h = absurd h
  StandFor-last_varint (f ∷ []) (e ∷ []) (h, hs) = rw (StandsFor-varint bytes f e h) refl
  StandFor-last_varint (f ∷ []) (e ∷ e' ∷ es) (h, hs) = absurd hs
  StandFor-last_varint (f ∷ f' ∷ fs) (e ∷ []) (h, hs) = absurd hs
  StandFor-last_varint (f ∷ f' ∷ fs) (e ∷ e' ∷ es) (h, hs) =
      StandFor-last_varint (f' ∷ fs) (e' ∷ es) hs

  StandFor-last_bytes :
      (fs : List ProtobufField) (es : List Entry)
      → StandFor bytes fs es
      → any (λ e. not (is_chunk e)) es ≡ false
      → last_bytes bytes (last? fs) ≡ last_chunk (last? es)
  StandFor-last_bytes [] [] h n = refl
  StandFor-last_bytes [] (e ∷ es) h n = absurd h
  StandFor-last_bytes (f ∷ fs) [] h n = absurd h
  StandFor-last_bytes (f ∷ []) (e ∷ []) (h, hs) n = StandsFor-last_bytes f e h (ground (arith, n))
  StandFor-last_bytes (f ∷ []) (e ∷ e' ∷ es) (h, hs) n = absurd hs
  StandFor-last_bytes (f ∷ f' ∷ fs) (e ∷ []) (h, hs) n = absurd hs
  StandFor-last_bytes (f ∷ f' ∷ fs) (e ∷ e' ∷ es) (h, hs) n =
      StandFor-last_bytes (f' ∷ fs) (e' ∷ es) hs (tail_any e n)
    where
      tail_any :
          (x : Entry)
          → any (λ e. not (is_chunk e)) (x ∷ e' ∷ es) ≡ false
          → any (λ e. not (is_chunk e)) (e' ∷ es) ≡ false
      tail_any (varint_entry t m) k = cc
      tail_any (chunk_entry t c) k = k

module _ (bytes : List ℕ) (fs : List ProtobufField) (es : List Entry) (h : StandFor bytes fs es)
    (tag : ℕ) where
  abbrev found : StandFor bytes (matching fs tag) (entries_at es tag)
  found = StandFor-select bytes (λ t. t == tag) fs es h

  pub read_int64-entries : read_int64 fs tag ≡ entry_int64 es tag
  unfolding read_int64
  read_int64-entries =
      rw
        (
          StandFor-any_varint bytes (matching fs tag) (entries_at es tag) found,
          StandFor-last_varint bytes (matching fs tag) (entries_at es tag) found,
        )
        refl

  pub read_length_delimited_value-entries :
      read_length_delimited_value bytes fs tag ≡ entry_bytes es tag
  unfolding read_length_delimited_value
  read_length_delimited_value-entries =
      rw (StandFor-any_chunk bytes (matching fs tag) (entries_at es tag) found)
        (elim (Bool-cases (any (λ e. not (is_chunk e)) (entries_at es tag))) [
          | inl y ↦ rw y refl
          | inr n ↦ rw n (StandFor-last_bytes bytes (matching fs tag) (entries_at es tag) found n)
        ])

  pub read_single_message_field-entries :
      read_single_message_field bytes fs tag ≡ only_chunk (entries_at es tag)
  unfolding read_single_message_field
  read_single_message_field-entries = go (matching fs tag) (entries_at es tag) found
    where
      go :
          (gs : List ProtobufField) (ds : List Entry)
          → StandFor bytes gs ds
          → single_bytes bytes gs ≡ only_chunk ds
      go [] [] k = refl
      go [] (e ∷ ds) k = absurd k
      go (f ∷ gs) [] k = absurd k
      go (f ∷ []) (e ∷ []) (k, _) = StandsFor-bytes bytes f e k
      go (f ∷ []) (e ∷ e' ∷ ds) (k, ks) = absurd ks
      go (f ∷ f' ∷ gs) (e ∷ []) (k, ks) = absurd ks
      go (f ∷ f' ∷ gs) (e ∷ e' ∷ ds) k = refl
