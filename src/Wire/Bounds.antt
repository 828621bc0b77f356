-- ===== src/Wire/Bounds.antt =====
-- What the reader promises on any bytes, also on those of an attacker: it stays inside the bytes,
-- and inside its limits.
use uurc_web_new.Prelude.{
  ℕ, zero, suc, ◌+◌, ◌-◌, ◌*◌, ◌/◌, ◌%◌, ◌^◌, ◌≤◌, ◌<◌, ◌≡◌, refl, ap, Option, none, some, List,
  length, get_elem?, ltb, ◌==◌, arith, Bool, true, false, ◌&&◌, lt-length-of_get_elem?,
  Option-cases, inl, inr, subst, ◌⊎◌, if◌then◌else◌, dec_lt,
}
use uurc_web_new.Wire.{read_varint, read_varint_loop}
use uurc_web_new.Wire.Varint.{shift_seven}

pow_le : (i j : ℕ) → 2 ^ (i * 7) ≤ 2 ^ ((i + j) * 7)
pow_le i zero = let e : i + 0 ≡ i = omega arith in rw e (omega arith)
pow_le i (suc j) =
    let e : i + suc j ≡ (i + j) + 1 = omega arith in
    rw e (omega (arith, pow_le i j, shift_seven (i + j)))

scaled : (p c : ℕ) → c ≤ 127 → c * p ≤ 127 * p
scaled p c h = grind arith

-- Below the tenth group the value stays below 2 ^ 63; the tenth adds one bit.
group_bound :
    (i acc b : ℕ)
    → i ≤ 9
    → acc < 2 ^ (i * 7)
    → (i ≡ 9 → b ≤ 1)
    → acc + b % 128 * 2 ^ (i * 7) < 2 ^ 64
group_bound i acc b hi ha h9 = elim (dec_lt i 9) [
  | yes low ↦ omega (arith, below, scaled (2 ^ (i * 7)) (b % 128) (omega arith), shift_seven i)
  | no high ↦
      let e : i ≡ 9 = omega arith in
      let small : b % 128 ≤ 1 = omega (arith, h9 e) in
      let p : 2 ^ (i * 7) ≡ 2 ^ 63 = ap (λ (j : ℕ). 2 ^ (j * 7)) e in
      omega (arith, p, ap (λ (t : ℕ). b % 128 * t) p)
]
  where
    below : i < 9 → 2 ^ ((i + 1) * 7) ≤ 2 ^ 63
    below low =
        let e : i + 1 + (8 - i) ≡ 9 = omega arith in
        subst (λ (j : ℕ). 2 ^ ((i + 1) * 7) ≤ 2 ^ (j * 7)) e (pow_le (i + 1) (8 - i))

-- One round that returns a value: it does at this byte, or the rest of the loop does.
round_cases :
    (k : ℕ) (bytes : List ℕ) (i acc offset b : ℕ) (r : ℕ × ℕ)
    → get_elem? bytes offset ≡ some b
    → read_varint_loop (suc k) bytes i acc offset ≡ some r
    → (i ≡ 9 → b ≤ 1)
      × (◌≡◌ {A = ℕ × ℕ} (acc + b % 128 * 2 ^ (i * 7), offset + 1) r
          ⊎ (read_varint_loop k bytes (i + 1) (acc + b % 128 * 2 ^ (i * 7)) (offset + 1) ≡ some r))
unfolding read_varint_loop
round_cases k bytes i acc offset b r e h =
    split (i == 9) (ltb 1 b) (b / 128 % 2 == 0) _ _ refl refl (rw (e, read_varint_loop) at h)
  where
    split :
        (t u w : Bool) (a : ℕ × ℕ) (more : Option (ℕ × ℕ))
        → (i == 9) ≡ t
        → ltb 1 b ≡ u
        → (if t && u then none else (if w then some a else more)) ≡ some r
        → (i ≡ 9 → b ≤ 1) × ((a ≡ r) ⊎ (more ≡ some r))
    split true true w a more p q h = cc
    split true false true a more p q h = (λ _. ground (arith, q), inl (cc))
    split true false false a more p q h = (λ _. ground (arith, q), inr h)
    split false u true a more p q h = (λ e. ground (arith, p), inl (cc))
    split false u false a more p q h = (λ e. ground (arith, p), inr h)

read_varint_loop-bounds :
    (k : ℕ) (bytes : List ℕ) (i acc offset : ℕ) (v next : ℕ)
    → i + k ≡ 10
    → acc < 2 ^ (i * 7)
    → read_varint_loop k bytes i acc offset ≡ some (v, next)
    → (offset < next) × (next ≤ offset + k) × (next ≤ length bytes) × (v < 2 ^ 64)
read_varint_loop-bounds zero bytes i acc offset v next hk ha h = unfold read_varint_loop in cc
read_varint_loop-bounds (suc k) bytes i acc offset v next hk ha h =
    elim (Option-cases (get_elem? bytes offset)) [
      | inl e ↦ unfold read_varint_loop in cc (rw (e, read_varint_loop) at h)
      | inr (b, e) ↦
          let (h9, d) = round_cases k bytes i acc offset b (v, next) e h in
          let small : acc + b % 128 * 2 ^ (i * 7) < 2 ^ 64 =
            group_bound i acc b (omega arith) ha h9 in
          let inside : offset < length bytes = lt-length-of_get_elem? bytes offset b e in
          elim d [
            | inl r ↦ ground (arith, r)
            | inr r ↦ omega (
              arith,
              read_varint_loop-bounds k bytes (i + 1) (acc + b % 128 * 2 ^ (i * 7)) (offset + 1) v
                  next (omega arith)
                  (omega (arith, shift_seven i, scaled (2 ^ (i * 7)) (b % 128) (omega arith))) r,
            )
          ]
    ]

-- A varint that is read ends inside the bytes, ten bytes further at most, and is a uint64.
pub read_varint-bounds :
    (bytes : List ℕ) (offset v next : ℕ)
    → read_varint bytes offset ≡ some (v, next)
    → (offset < next) × (next ≤ offset + 10) × (next ≤ length bytes) × (v < 2 ^ 64)
unfolding read_varint
read_varint-bounds bytes offset v next h =
    read_varint_loop-bounds 10 bytes 0 0 offset v next (omega arith) (omega arith) h
