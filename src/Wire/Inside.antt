-- ===== src/Wire/Inside.antt =====
-- `readProtobufFields` on any bytes: every field that it returns lies inside the bytes and inside
-- the limits, and the loop always comes to its end.
use uurc_web_new.Prelude.{
  ℕ, zero, suc, ◌+◌, ◌-◌, ◌/◌, ◌%◌, ◌^◌, ◌≤◌, ◌<◌, ◌≡◌, refl, sym, ap, ◌∙◌, subst, subst₂, some,
  List, [], ◌∷◌, ◌++◌, length, length-append, ltb, leb, ◌==◌, arith, All, Bool, true, false, ◌||◌,
  Option-cases, Bool-cases, inl, inr, ◌⊎◌, if◌then◌else◌, ◌≢◌, ne→==-false,
}
use uurc_web_new.Wire.{
  ProtobufField, ProtobufReadOptions, varint_field, data_field, FieldRead, field_read,
  malformed_field, oversized_field, read_field, read_payload, read_varint_payload,
  read_data_payload, read_fixed_payload, read_loop, read_fields, malformed, bytes_limit,
  fields_limit, read_varint, length_delimited_type, max_safe_integer,
}
use uurc_web_new.Wire.Reader.{read_loop-done}
use uurc_web_new.Wire.Bounds.{read_varint-bounds}

-- A varint holds a uint64; a place of data lies inside the bytes, and one behind a length is not
-- longer than the limit.
abbrev pub Payload : ℕ → List ℕ → ProtobufField → Type 0
Payload limit bytes f =
    ((v : ℕ) × (f ≡ varint_field f.tag 0 v) × (v < 2 ^ 64))
    ⊎ ((start : ℕ) × (size : ℕ) × (f ≡ data_field f.tag f.wire_type start size)
        × (start + size ≤ length bytes)
        × (f.wire_type ≡ length_delimited_type → size ≤ limit))

pub record IsInside (limit : ℕ) (bytes : List ℕ) (f : ProtobufField) : Type 0 where
  pub tag_bounds : (0 < f.tag) × (f.tag ≤ 0x1fffffff)
  pub payload : Payload limit bytes f

-- A guard that a read field has passed.
passed :
    (c : Bool) {bad r : FieldRead} {f : ProtobufField} {next : ℕ}
    → (bad ≡ field_read f next → ⊥)
    → (if c then bad else r) ≡ field_read f next
    → (c ≡ false) × (r ≡ field_read f next)
passed true never h = absurd (never h)
passed false never h = (refl, h)

not_malformed : {f : ProtobufField} {next : ℕ} → malformed_field ≡ field_read f next → ⊥
not_malformed h = cc

not_oversized : {f : ProtobufField} {next : ℕ} → oversized_field ≡ field_read f next → ⊥
not_oversized h = cc

-- What a `FieldRead` holds, with a default.
field_of : ProtobufField → FieldRead → ProtobufField
field_of d (field_read f n) = f
field_of d _ = d

next_of : FieldRead → ℕ
next_of (field_read f n) = n
next_of _ = 0

module _ (limit : ℕ) (bytes : List ℕ) where
  abbrev Ends : ℕ → ℕ → ProtobufField → ℕ → Type 0
  Ends tag offset f next =
      (f.tag ≡ tag) × (offset ≤ next) × (next ≤ length bytes) × Payload limit bytes f

  Ends-read :
      (tag offset : ℕ) (g : ProtobufField) (n : ℕ) (f : ProtobufField) (next : ℕ)
      → Ends tag offset g n
      → field_read g n ≡ field_read f next
      → Ends tag offset f next
  unfolding field_of next_of
  Ends-read tag offset g n f next b h =
      subst₂ (λ (f' : ProtobufField) (n' : ℕ). Ends tag offset f' n') (ap (field_of g) h)
        (ap next_of h) b

  varint-inside :
      (tag offset : ℕ) (f : ProtobufField) (next : ℕ)
      → read_varint_payload bytes tag 0 offset ≡ field_read f next
      → Ends tag offset f next
  unfolding read_varint_payload varint_field
  varint-inside tag offset f next h = elim (Option-cases (read_varint bytes offset)) [
    | inl e ↦ absurd (not_malformed (rw (e, read_varint_payload) at h))
    | inr ((v, n), e) ↦
        let b = read_varint-bounds bytes offset v n e in
        Ends-read tag offset (varint_field tag 0 v) n f next
          (refl, omega arith, omega arith, inl (v, refl, b.3)) (rw (e, read_varint_payload) at h)
  ]

  fixed-inside :
      (size tag wire offset : ℕ) (f : ProtobufField) (next : ℕ)
      → wire ≢ 2
      → read_fixed_payload size bytes tag wire offset ≡ field_read f next
      → Ends tag offset f next
  unfolding read_fixed_payload data_field
  fixed-inside size tag wire offset f next hw h =
      let (c, r) = passed (ltb (length bytes) (offset + size)) not_malformed h in
      Ends-read tag offset (data_field tag wire offset size) (offset + size) f next
        (
          refl,
          omega arith,
          ground (arith, c),
          inr (offset, size, refl, ground (arith, c), λ e. absurd (hw e)),
        )
        r

  data-inside :
      (tag offset : ℕ) (f : ProtobufField) (next : ℕ)
      → read_data_payload limit bytes tag 2 offset ≡ field_read f next
      → Ends tag offset f next
  unfolding read_data_payload data_field
  data-inside tag offset f next h = elim (Option-cases (read_varint bytes offset)) [
    | inl e ↦ absurd (not_malformed (rw (e, read_data_payload) at h))
    | inr ((size, start), e) ↦
        let b = read_varint-bounds bytes offset size start e in
        let (c, r) =
          passed (ltb max_safe_integer size || ltb (length bytes - start) size) not_malformed
            (rw (e, read_data_payload) at h) in
        let (c', r') = passed (ltb limit size) not_oversized r in
        let room : start + size ≤ length bytes = ground (arith, c, b.2) in
        Ends-read tag offset (data_field tag 2 start size) (start + size) f next
          (refl, omega (arith, b.0), room, inr (start, size, refl, room, λ _. ground (arith, c')))
          r'
  ]

  payload-inside :
      (tag wire offset : ℕ) (f : ProtobufField) (next : ℕ)
      → read_payload limit bytes tag wire offset ≡ field_read f next
      → Ends tag offset f next
  unfolding read_payload
  payload-inside tag zero offset f next h = varint-inside tag offset f next h
  payload-inside tag (suc zero) offset f next h = fixed-inside 8 tag 1 offset f next (omega arith) h
  payload-inside tag (suc (suc zero)) offset f next h = data-inside tag offset f next h
  payload-inside tag (suc (suc (suc n))) offset f next h =
      let w : ℕ = suc (suc (suc n)) in
      let h' =
        rw
          (
            ne→==-false w 0 (omega arith),
            ne→==-false w 1 (omega arith),
            ne→==-false w 2 (omega arith),
          )
          at h in
      elim (Bool-cases (w == 5)) [
        | inl e ↦ fixed-inside 4 tag w offset f next (omega arith) (rw e at h')
        | inr e ↦ absurd (not_malformed (rw e at h'))
      ]

  -- One round moves on, stays inside the bytes, and returns a field inside the limits.
  pub read_field-IsInside :
      (offset : ℕ) (f : ProtobufField) (next : ℕ)
      → read_field limit bytes offset ≡ field_read f next
      → (offset < next) × (next ≤ length bytes) × IsInside limit bytes f
  unfolding read_field
  read_field-IsInside offset f next h = elim (Option-cases (read_varint bytes offset)) [
    | inl e ↦ absurd (not_malformed (rw (e, read_field) at h))
    | inr ((key, n), e) ↦
        let b = read_varint-bounds bytes offset key n e in
        let (c, r) =
          passed ((ltb max_safe_integer (key / 8) || key / 8 == 0) || ltb 0x1fffffff (key / 8))
            not_malformed (rw (e, read_field) at h) in
        let (t, lo, hi, p) = payload-inside (key / 8) (key % 8) n f next r in
        (
          omega (arith, b.0, lo),
          hi,
          record { tag_bounds = (ground (arith, c, t), ground (arith, c, t)); payload = p },
        )
  ]

-- `All` over a list that grows at its end.
All-snoc {κ} :
    {A : Type 0} (P : A → Type κ) (xs : List A) (x : A) → All P xs → P x → All P (xs ++ (x ∷ []))
All-snoc P [] x a p = (p, tt)
All-snoc P (y ∷ ys) x (py, pys) p = (py, All-snoc P ys x pys p)

-- How a call of the reader ends.
abbrev Good : ℕ → ℕ → List ℕ → List ProtobufField → Type 0
Good count limit bytes fields = All (IsInside limit bytes) fields × (length fields ≤ count)

FieldRead-cases :
    (r : FieldRead)
    → ((f : ProtobufField) × (n : ℕ) × (r ≡ field_read f n))
      ⊎ ((r ≡ malformed_field) ⊎ (r ≡ oversized_field))
FieldRead-cases (field_read f n) = inl (f, n, refl)
FieldRead-cases malformed_field = inr (inl refl)
FieldRead-cases oversized_field = inr (inr refl)

-- What one round of the loop does, as the alternatives that can return a list.
abbrev Rounds :
    ℕ → List ℕ → ProtobufReadOptions → ℕ → List ProtobufField → List ProtobufField → Type 0
Rounds fuel bytes options offset fields result =
    (fields ≡ result)
    ⊎ ((f : ProtobufField) × (next : ℕ) × (read_field (bytes_limit options) bytes offset
          ≡ field_read f next)
        × (length fields < fields_limit options)
        × (read_loop fuel bytes options next (fields ++ (f ∷ [])) ≡ some result))

malformed-eq :
    (fields : List ProtobufField) (options : ProtobufReadOptions) (result : List ProtobufField)
    → malformed fields options ≡ some result
    → fields ≡ result
unfolding malformed
malformed-eq fields options result h = ground arith

read_loop-Rounds :
    (fuel : ℕ) (bytes : List ℕ) (options : ProtobufReadOptions) (offset : ℕ)
    (fields : List ProtobufField) (result : List ProtobufField)
    → read_loop (suc fuel) bytes options offset fields ≡ some result
    → Rounds fuel bytes options offset fields result
unfolding read_loop
read_loop-Rounds fuel bytes options offset fields result h =
    elim (Bool-cases (ltb offset (length bytes))) [
      | inr done ↦ inl (let e = rw done at h in cc)
      | inl more ↦ elim (Bool-cases (leb (fields_limit options) (length fields))) [
        | inl full ↦ let e = rw (more, full) at h in cc
        | inr room ↦ elim (FieldRead-cases (read_field (bytes_limit options) bytes offset)) [
          | inl (f, n, e) ↦ inr (f, n, e, ground (arith, room), rw (more, room, e, read_loop) at h)
          | inr (inl e) ↦
              inl (malformed-eq fields options result (rw (more, room, e, read_loop) at h))
          | inr (inr e) ↦ let e' = rw (more, room, e, read_loop) at h in cc
        ]
      ]
    ]

read_loop-inside :
    (fuel : ℕ) (bytes : List ℕ) (options : ProtobufReadOptions) (offset : ℕ)
    (fields : List ProtobufField) (result : List ProtobufField)
    → Good (fields_limit options) (bytes_limit options) bytes fields
    → read_loop fuel bytes options offset fields ≡ some result
    → Good (fields_limit options) (bytes_limit options) bytes result
read_loop-inside zero bytes options offset fields result g h =
    let e : fields ≡ result = unfold read_loop in cc in
    subst (λ (l : List ProtobufField). Good (fields_limit options) (bytes_limit options) bytes l) e
      g
read_loop-inside (suc fuel) bytes options offset fields result g h =
    elim (read_loop-Rounds fuel bytes options offset fields result h) [
      | inl e ↦
          subst
            (λ (l : List ProtobufField). Good (fields_limit options) (bytes_limit options) bytes l)
            e g
      | inr (f, next, r, room, rest) ↦
          read_loop-inside fuel bytes options next (fields ++ (f ∷ [])) result
            (
              All-snoc (IsInside (bytes_limit options) bytes) fields f g.0
                  (read_field-IsInside (bytes_limit options) bytes offset f next r).2,
              omega (arith, length-append fields (f ∷ [])),
            )
            rest
    ]

-- One more round is the same in two loops whose rest agrees at every later offset.
read_loop-round_eq :
    (f g : ℕ) (bytes : List ℕ) (options : ProtobufReadOptions) (offset : ℕ)
    (fields : List ProtobufField)
    → ((next : ℕ) (fs : List ProtobufField)
        → offset < next
        → read_loop f bytes options next fs ≡ read_loop g bytes options next fs)
    → read_loop (suc f) bytes options offset fields ≡ read_loop (suc g) bytes options offset fields
unfolding read_loop
read_loop-round_eq f g bytes options offset fields same =
    elim (FieldRead-cases (read_field (bytes_limit options) bytes offset)) [
      | inl (x, n, e) ↦
          rw (e, read_loop)
            (rw
              (same n (fields ++ (x ∷ []))
                (read_field-IsInside (bytes_limit options) bytes offset x n e).0)
              refl)
      | inr (inl e) ↦ rw (e, read_loop) refl
      | inr (inr e) ↦ rw (e, read_loop) refl
    ]

-- The loop of `readProtobufFields` ends by its own test: any fuel that covers the bytes left gives
-- the same result.
pub read_loop-fuel :
    (f g : ℕ) (bytes : List ℕ) (options : ProtobufReadOptions) (offset : ℕ)
    (fields : List ProtobufField)
    → length bytes ≤ offset + f
    → length bytes ≤ offset + g
    → read_loop f bytes options offset fields ≡ read_loop g bytes options offset fields
read_loop-fuel zero g bytes options offset fields p q =
    let le : length bytes ≤ offset = omega arith in
    read_loop-done zero bytes options offset fields le
    ∙ sym (read_loop-done g bytes options offset fields le)
read_loop-fuel (suc f) zero bytes options offset fields p q =
    let le : length bytes ≤ offset = omega arith in
    read_loop-done (suc f) bytes options offset fields le
    ∙ sym (read_loop-done zero bytes options offset fields le)
read_loop-fuel (suc f) (suc g) bytes options offset fields p q =
    read_loop-round_eq f g bytes options offset fields
      (λ next fs h. read_loop-fuel f g bytes options next fs (omega arith) (omega arith))

-- Whatever the bytes are, the fields that the reader returns are at most as many as the options
-- allow, and each has an allowed number and lies inside the bytes and the limits.
pub read_fields-IsInside :
    (bytes : List ℕ) (options : ProtobufReadOptions) (result : List ProtobufField)
    → read_fields bytes options ≡ some result
    → All (IsInside (bytes_limit options) bytes) result × (length result ≤ fields_limit options)
unfolding read_fields
read_fields-IsInside bytes options result h =
    read_loop-inside (length bytes) bytes options 0 [] result (tt, omega arith) h
