-- ===== src/Control/Fold.antt =====
-- A decoder's fold over the fields that stand for a message is a fold over the message.
use uurc_web_new.Prelude.{ℕ, ◌≡◌, refl, Option, List, [], ◌∷◌, map}
use uurc_web_new.Wire.{ProtobufField, length_delimited_bytes}
use uurc_web_new.Wire.Entries.{Entry, StandFor}
use uurc_web_new.Wire.Views.{
  entry_tag, entry_varint, entry_chunk, StandsFor-tag, StandsFor-varint, StandsFor-bytes,
}
use uurc_web_new.Control.Model.{foldl}

-- What a step does on an entry.
abbrev pub entry_step : {D : Type 0} → (D → ℕ → Option ℕ → Option (List ℕ) → D) → D → Entry → D
entry_step step d e = step d (entry_tag e) (entry_varint e) (entry_chunk e)

module _ {D : Type 0} (step : D → ℕ → Option ℕ → Option (List ℕ) → D) (bytes : List ℕ) where
  pub foldl-entries :
      (d : D) (fs : List ProtobufField) (es : List Entry)
      → StandFor bytes fs es
      → foldl (λ d f. step d f.tag f.varint (length_delimited_bytes bytes f)) d fs
        ≡ foldl (entry_step step) d es
  foldl-entries d [] [] h = refl
  foldl-entries d [] (e ∷ es) h = elim h [ ]
  foldl-entries d (f ∷ fs) [] h = elim h [ ]
  foldl-entries d (f ∷ fs) (e ∷ es) h =
      rw
        (StandsFor-bytes bytes f e h.0, StandsFor-tag bytes f e h.0, StandsFor-varint bytes f e h.0)
        (foldl-entries (entry_step step d e) fs es h.1)

pub tags-entries :
    (bytes : List ℕ) (fs : List ProtobufField) (es : List Entry)
    → StandFor bytes fs es
    → map (λ f. f.tag) fs ≡ map entry_tag es
tags-entries bytes [] [] h = refl
tags-entries bytes [] (e ∷ es) h = elim h [ ]
tags-entries bytes (f ∷ fs) [] h = elim h [ ]
tags-entries bytes (f ∷ fs) (e ∷ es) h =
    rw (StandsFor-tag bytes f e h.0, tags-entries bytes fs es h.1) refl
