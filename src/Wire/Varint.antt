-- ===== src/Wire/Varint.antt =====
-- Varints: what `pushVarint` writes, and that `readProtobufVarint` reads it back.
use native.Mathlib.Nat.{div-add-mod}
use native.Mathlib.Numerals.{add-one, towards_suc}
use uurc_web_new.Prelude.{
  ℕ, zero, suc, ◌+◌, ◌*◌, ◌/◌, ◌%◌, ◌^◌, ◌≤◌, ◌<◌, ◌≡◌, refl, ap, ◌∙◌, some, List, [], ◌∷◌, ◌++◌,
  length, length-append, All, drop, get_elem?-of_drop, drop-length, append-nil, sym, drop-suc, ◌==◌,
  arith, ok, inl, inr, Bool-cases, subst, ne→==-false, ◌≢◌,
}
use uurc_web_new.Prelude.Int.{pos, number, to_int32_small}
use uurc_web_new.Wire.{
  varint_loop, push_bigint, push_varint, push_field_key, read_varint_loop, read_varint,
}

-- What `pushVarint` appends for the non-negative value `n`.
pub varint_bytes : ℕ → List ℕ
varint_bytes n = varint_loop n n

pub push_varint-number :
    (bytes : List ℕ) (n : ℕ) → push_varint bytes (number (pos n)) ≡ ok (bytes ++ varint_bytes n)
unfolding push_varint push_bigint varint_bytes
push_varint-number bytes n = refl

-- The key of a field whose number protobuf allows.
pub push_field_key-small :
    (bytes : List ℕ) (n w : ℕ)
    → n < 2 ^ 28
    → w < 8
    → push_field_key bytes n w ≡ ok (bytes ++ varint_bytes (n * 8 + w))
unfolding push_field_key
push_field_key-small bytes n w hn hw =
    rw (to_int32_small (n * 8 + w) (omega arith)) (push_varint-number bytes (n * 8 + w))

-- The loop stops by its test: fuel beyond the value changes nothing.
varint_loop-fuel : (f g n : ℕ) → n ≤ f → n ≤ g → varint_loop f n ≡ varint_loop g n
unfolding varint_loop
varint_loop-fuel zero zero n p q = refl
varint_loop-fuel zero (suc g) n p q = ground arith
varint_loop-fuel (suc f) zero n p q = ground arith
varint_loop-fuel (suc f) (suc g) n p q = ground (arith, varint_loop-fuel f g (n / 128))

pub length-varint_loop-pos : (f n : ℕ) → 0 < length (varint_loop f n)
unfolding varint_loop
length-varint_loop-pos zero n = omega arith
length-varint_loop-pos (suc f) n = ground arith

pow_seven : (m : ℕ) → 2 ^ (m + 7) ≡ 128 * 2 ^ m
pow_seven m = simp towards_suc (omega arith)

pub shift_seven : (i : ℕ) → 2 ^ ((i + 1) * 7) ≡ 128 * 2 ^ (i * 7)
shift_seven i = let e : (i + 1) * 7 ≡ i * 7 + 7 = omega arith in rw e (pow_seven (i * 7))

-- The lowest group of `r` and the groups above it, at the weight of round `i`.
split_group : (r i : ℕ) → r * 2 ^ (i * 7) ≡ r % 128 * 2 ^ (i * 7) + r / 128 * 2 ^ ((i + 1) * 7)
split_group r i = omega (
  arith,
  ap (λ (t : ℕ). t * 2 ^ (i * 7)) (div-add-mod r 128),
  ap (λ (t : ℕ). r / 128 * t) (shift_seven i),
)

-- What is left at the tenth byte is one bit.
at_tenth : (r i : ℕ) → i ≡ 9 → r * 2 ^ (i * 7) < 2 ^ 64 → r < 2
at_tenth r i e h = omega (arith, subst (λ (j : ℕ). r * 2 ^ (j * 7) < 2 ^ 64) e h)

module _ (k i acc offset : ℕ) (bytes : List ℕ) where
  -- A byte below 128 ends the varint, a byte from 128 on goes on.
  read_last :
      (b : ℕ) (rest : List ℕ)
      → drop offset bytes ≡ b ∷ rest
      → b < 128
      → (i ≡ 9 → b < 2)
      → read_varint_loop (suc k) bytes i acc offset ≡ some (acc + b * 2 ^ (i * 7), offset + 1)
  unfolding read_varint_loop
  read_last b rest h hb h9 =
      let m : b % 128 ≡ b = omega arith in
      rw (get_elem?-of_drop offset bytes b rest h, read_varint_loop) (ground (arith, m, h9))

  read_more :
      (b : ℕ) (rest : List ℕ)
      → drop offset bytes ≡ (b + 128) ∷ rest
      → b < 128
      → i ≢ 9
      → read_varint_loop (suc k) bytes i acc offset
        ≡ read_varint_loop k bytes (i + 1) (acc + b * 2 ^ (i * 7)) (offset + 1)
  unfolding read_varint_loop
  read_more b rest h hb h9 =
      let m : (b + 128) % 128 ≡ b = omega arith in
      let q : (b + 128) / 128 % 2 ≡ 1 = omega arith in
      rw (get_elem?-of_drop offset bytes (b + 128) rest h, read_varint_loop)
        (rw (ne→==-false i 9 h9, m, q) refl)

-- The groups of `r` from the round `i` on, read into the value `acc` read so far.
read-varint_loop :
    (f r k i acc offset : ℕ) (bytes rest : List ℕ)
    → drop offset bytes ≡ varint_loop f r ++ rest
    → r ≤ f
    → i + k ≡ 10
    → i ≤ 9
    → r * 2 ^ (i * 7) < 2 ^ 64
    → read_varint_loop k bytes i acc offset
      ≡ some (acc + r * 2 ^ (i * 7), offset + length (varint_loop f r))
unfolding varint_loop
read-varint_loop f r zero i acc offset bytes rest h hf hk hi hr = absurd (omega arith)
read-varint_loop zero r (suc k) i acc offset bytes rest h hf hk hi hr =
    let m : r % 128 ≡ r = omega arith in
    subst
      (λ (t : ℕ).
        read_varint_loop (suc k) bytes i acc offset ≡ some (acc + t * 2 ^ (i * 7), offset + 1))
      m (read_last k i acc offset bytes (r % 128) rest h (omega arith) (λ e. omega arith))
read-varint_loop (suc f) r (suc k) i acc offset bytes rest h hf hk hi hr =
    elim (Bool-cases (r / 128 == 0)) [
      | inl last ↦
          let m : r % 128 ≡ r = ground (arith, last) in
          let h' : drop offset bytes ≡ (r % 128) ∷ rest = rw last at h in
          rw last (
            subst
              (λ (t : ℕ).
                read_varint_loop (suc k) bytes i acc offset
                ≡ some (acc + t * 2 ^ (i * 7), offset + 1))
              m
              (read_last k i acc offset bytes (r % 128) rest h' (omega arith)
                (λ e. omega (arith, at_tenth r i e hr))))
      | inr more ↦
          let h' : drop offset bytes ≡ (r % 128 + 128) ∷ (varint_loop f (r / 128) ++ rest) =
            rw more at h in
          let big : 0 < r / 128 = ground (arith, more) in
          let not_last : i ≢ 9 = λ e. absurd (omega (arith, at_tenth r i e hr)) in
          rw more (
            read_more k i acc offset bytes (r % 128) (varint_loop f (r / 128) ++ rest) h'
              (omega arith) not_last
            ∙ read-varint_loop f (r / 128) k (i + 1) (acc + r % 128 * 2 ^ (i * 7)) (offset + 1)
                bytes rest (rw add-one (drop-suc offset bytes _ _ h')) (omega arith) (omega arith)
                (omega arith) (omega (arith, split_group r i))
            ∙ ground (arith, split_group r i))
    ]

-- `readProtobufVarint` reads what `pushVarint` wrote for every uint64, whatever follows it, and
-- ends behind it.
pub read-varint_bytes :
    (n offset : ℕ) (bytes rest : List ℕ)
    → drop offset bytes ≡ varint_bytes n ++ rest
    → n < 2 ^ 64
    → read_varint bytes offset ≡ some (n, offset + length (varint_bytes n))
unfolding read_varint varint_bytes
read-varint_bytes n offset bytes rest h hn =
    read-varint_loop n n 10 0 0 offset bytes rest h (omega arith) (omega arith) (omega arith)
      (omega arith)
    ∙ ground arith

pub length-varint_bytes-pos : (n : ℕ) → 0 < length (varint_bytes n)
unfolding varint_bytes
length-varint_bytes-pos n = length-varint_loop-pos n n

length-varint_loop-le : (k f r : ℕ) → r < 128 ^ suc k → length (varint_loop f r) ≤ suc k
unfolding varint_loop
length-varint_loop-le k zero r h = omega arith
length-varint_loop-le zero (suc f) r h = ground arith
length-varint_loop-le (suc k) (suc f) r h = ground (arith, length-varint_loop-le k f (r / 128))

-- A uint64 takes ten bytes at most.
pub length-varint_bytes-le : (n : ℕ) → n < 2 ^ 64 → length (varint_bytes n) ≤ 10
unfolding varint_bytes
length-varint_bytes-le n h = length-varint_loop-le 9 n n (omega arith)

varint_loop-bytes : (f r : ℕ) → All (λ b. b < 256) (varint_loop f r)
unfolding varint_loop
varint_loop-bytes zero r = omega arith
varint_loop-bytes (suc f) r = ground (arith, varint_loop-bytes f (r / 128))

-- What `pushVarint` writes for a uint64 is one to ten bytes.
pub varint_bytes_shape :
    (n : ℕ)
    → n < 2 ^ 64
    → All (λ b. b < 256) (varint_bytes n)
      × (0 < length (varint_bytes n))
      × (length (varint_bytes n) ≤ 10)
unfolding varint_bytes
varint_bytes_shape n h =
    (varint_loop-bytes n n, length-varint_loop-pos n n, length-varint_loop-le 9 n n (omega arith))

-- What `pushVarint` appends for a uint64 of type `number` is read back at the place where it
-- began, up to the end.
pub read-push_varint :
    (bytes out : List ℕ) (n : ℕ)
    → n < 2 ^ 64
    → push_varint bytes (number (pos n)) ≡ ok out
    → read_varint out (length bytes) ≡ some (n, length out)
read-push_varint bytes out n hn h =
    let e : bytes ++ varint_bytes n ≡ out = ground (arith, h, push_varint-number bytes n) in
    rw (← e) (
      read-varint_bytes n (length bytes) (bytes ++ varint_bytes n) []
        (drop-length bytes (varint_bytes n) ∙ sym (append-nil (varint_bytes n))) hn
      ∙ ap (λ x. some (n, x)) (sym (length-append bytes (varint_bytes n))))
