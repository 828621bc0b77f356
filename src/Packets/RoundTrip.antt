-- ===== src/Packets/RoundTrip.antt =====
-- The data that is received is the data that was sent.
use Prim.Native.String.{String}
use text.Mathlib.Text.{◌==◌ as str_eq}
use uurc_web_new.Prelude.{
  ℕ, ◌≡◌, refl, ap, ◌∙◌, sym, inl, inr, Bool, false, ◌&&◌, some, List, [], ◌∷◌, ◌++◌, length,
  get_elem?, append_assoc, append-nil, Bool-cases,
}
use uurc_web_new.Json.{Json, Items, Fields, bin, arr, obj, nil, cons, end, field, prop}
use uurc_web_new.Packets.{
  Buffers, deconstruct_value, deconstruct_items, deconstruct_fields, deconstruct_binary,
  placeholder, is_true, is_number, looks_like_placeholder, buffer_or, reconstruct,
  reconstruct_items, reconstruct_fields,
}

-- No object of the value looks like a placeholder.
abbrev mutual
  pub HasNoPlaceholder : Json → Type 0
  HasNoPlaceholder (arr vs) = HaveNoPlaceholder vs
  HasNoPlaceholder (obj fs) = (looks_like_placeholder fs ≡ false) × FieldsHaveNoPlaceholder fs
  HasNoPlaceholder _ = Unit {0}

  pub HaveNoPlaceholder : Items → Type 0
  HaveNoPlaceholder nil = Unit {0}
  HaveNoPlaceholder (cons v vs) = HasNoPlaceholder v × HaveNoPlaceholder vs

  pub FieldsHaveNoPlaceholder : Fields → Type 0
  FieldsHaveNoPlaceholder end = Unit {0}
  FieldsHaveNoPlaceholder (field key v fs) = HasNoPlaceholder v × FieldsHaveNoPlaceholder fs

-- What is pushed stands behind what was there.
mutual
  unfolding deconstruct_value deconstruct_items deconstruct_fields

  pushed : (v : Json) (bs : Buffers) → (new : Buffers) × ((deconstruct_value v bs).1 ≡ bs ++ new)
  pushed (bin bytes) bs = (bytes ∷ [], refl)
  pushed (arr vs) bs = pushed_items vs bs
  pushed (obj fs) bs = pushed_fields fs bs
  pushed _ bs = ([], sym (append-nil bs))

  pushed_items :
      (vs : Items) (bs : Buffers) → (new : Buffers) × ((deconstruct_items vs bs).1 ≡ bs ++ new)
  pushed_items nil bs = ([], sym (append-nil bs))
  pushed_items (cons v vs) bs =
      let (new, p) = pushed v bs in
      let (more, q) = pushed_items vs (deconstruct_value v bs).1 in
      (new ++ more, q ∙ ap (λ l. l ++ more) p ∙ append_assoc bs new more)

  pushed_fields :
      (fs : Fields) (bs : Buffers) → (new : Buffers) × ((deconstruct_fields fs bs).1 ≡ bs ++ new)
  pushed_fields end bs = ([], sym (append-nil bs))
  pushed_fields (field key v fs) bs =
      let (new, p) = pushed v bs in
      let (more, q) = pushed_fields fs (deconstruct_value v bs).1 in
      (new ++ more, q ∙ ap (λ l. l ++ more) p ∙ append_assoc bs new more)

-- A placeholder stands for bytes, and no flag and no number is one.
is_true-deconstruct_value :
    (v : Json) (bs : Buffers) → is_true (deconstruct_value v bs).0 ≡ is_true v
unfolding deconstruct_value
is_true-deconstruct_value (bin bytes) bs = refl
is_true-deconstruct_value _ bs = refl

is_number-deconstruct_value :
    (v : Json) (bs : Buffers) → is_number (deconstruct_value v bs).0 ≡ is_number v
unfolding deconstruct_value
is_number-deconstruct_value (bin bytes) bs = refl
is_number-deconstruct_value _ bs = refl

prop-deconstruct_fields :
    (test : Json → Bool) (key : String) (fs : Fields) (bs : Buffers)
    → ((v : Json) (bs : Buffers) → test (deconstruct_value v bs).0 ≡ test v)
    → test (prop key (deconstruct_fields fs bs).0) ≡ test (prop key fs)
unfolding deconstruct_fields
prop-deconstruct_fields test key end bs h = refl
prop-deconstruct_fields test key (field k v fs) bs h = elim (Bool-cases (str_eq k key)) [
  | inl y ↦ rw y (h v bs)
  | inr n ↦ rw n (prop-deconstruct_fields test key fs (deconstruct_value v bs).1 h)
]

looks_like-deconstruct_fields :
    (fs : Fields) (bs : Buffers)
    → looks_like_placeholder (deconstruct_fields fs bs).0 ≡ looks_like_placeholder fs
looks_like-deconstruct_fields fs bs =
    ap (λ b. b && is_number (prop "num" (deconstruct_fields fs bs).0))
      (prop-deconstruct_fields is_true "_placeholder" fs bs is_true-deconstruct_value)
    ∙ ap (λ b. is_true (prop "_placeholder" fs) && b)
        (prop-deconstruct_fields is_number "num" fs bs is_number-deconstruct_value)

get_elem?-pushed :
    (bs : Buffers) (bytes : List ℕ) (more : Buffers)
    → get_elem? ((bs ++ bytes ∷ []) ++ more) (length bs) ≡ some bytes
get_elem?-pushed [] bytes more = refl
get_elem?-pushed (b ∷ bs) bytes more = get_elem?-pushed bs bytes more

module _ (index_name : ℕ → String) where
  mutual
    unfolding deconstruct_value deconstruct_items deconstruct_fields reconstruct reconstruct_items
        reconstruct_fields

    back :
        (v : Json) (bs more : Buffers)
        → HasNoPlaceholder v
        → reconstruct index_name (deconstruct_value v bs).0 ((deconstruct_value v bs).1 ++ more) ≡ v
    back (bin bytes) bs more h =
        ap (λ o. buffer_or o (placeholder (length bs))) (get_elem?-pushed bs bytes more)
    back (arr vs) bs more h = ap arr (back_items vs bs more h)
    back (obj fs) bs more h =
        rw (looks_like-deconstruct_fields fs bs ∙ h.0) (ap obj (back_fields fs bs more h.1))
    back _ bs more h = refl

    back_items :
        (vs : Items) (bs more : Buffers)
        → HaveNoPlaceholder vs
        → reconstruct_items index_name
            (deconstruct_items vs bs).0
            ((deconstruct_items vs bs).1 ++ more)
          ≡ vs
    back_items nil bs more h = refl
    back_items (cons v vs) bs more h =
        let first = deconstruct_value v bs in
        let (new, p) = pushed_items vs first.1 in
        let seen = ap (λ l. l ++ more) p ∙ append_assoc first.1 new more in
        let head : reconstruct index_name first.0 ((deconstruct_items vs first.1).1 ++ more) ≡ v =
          ap (reconstruct index_name first.0) seen ∙ back v bs (new ++ more) h.0 in
        ap
          (λ u. cons u (
            reconstruct_items index_name (deconstruct_items vs first.1).0
              ((deconstruct_items vs first.1).1 ++ more)))
          head
        ∙ ap (cons v) (back_items vs first.1 more h.1)

    back_fields :
        (fs : Fields) (bs more : Buffers)
        → FieldsHaveNoPlaceholder fs
        → reconstruct_fields index_name
            (deconstruct_fields fs bs).0
            ((deconstruct_fields fs bs).1 ++ more)
          ≡ fs
    back_fields end bs more h = refl
    back_fields (field key v fs) bs more h =
        let first = deconstruct_value v bs in
        let (new, p) = pushed_fields fs first.1 in
        let seen = ap (λ l. l ++ more) p ∙ append_assoc first.1 new more in
        let head : reconstruct index_name first.0 ((deconstruct_fields fs first.1).1 ++ more) ≡ v =
          ap (reconstruct index_name first.0) seen ∙ back v bs (new ++ more) h.0 in
        ap
          (λ u. field key u (
            reconstruct_fields index_name (deconstruct_fields fs first.1).0
              ((deconstruct_fields fs first.1).1 ++ more)))
          head
        ∙ ap (field key v) (back_fields fs first.1 more h.1)

  -- Data whose byte arrays were taken out and put in again is the data that it was, if no object
  -- in it looks like a placeholder.
  pub reconstruct-deconstruct_binary :
      (v : Json)
      → HasNoPlaceholder v
      → reconstruct index_name (deconstruct_binary v).0 (deconstruct_binary v).1 ≡ v
  unfolding deconstruct_binary
  reconstruct-deconstruct_binary v h =
      ap (reconstruct index_name (deconstruct_value v []).0)
        (sym (append-nil (deconstruct_value v []).1))
      ∙ back v [] [] h
