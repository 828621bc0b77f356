-- ===== src/PacketText/Decimal.antt =====
-- The digits of a number are read back as the number.
use uurc_web_new.Prelude.{
  ℕ, zero, suc, ◌+◌, ◌-◌, ◌*◌, ◌/◌, ◌%◌, ◌<◌, ◌≡◌, ◌≢◌, refl, ap, ◌∙◌, inl, inr, true, false, List,
  [], ◌∷◌, ◌++◌, All, arith, Bool-cases, ltb,
}
use uurc_web_new.Control.Decode.{is_digit, digits_value}
use uurc_web_new.PacketText.{decimal_loop, decimal, span_digits}

digits_value-snoc :
    (acc : ℕ) (ds : List ℕ) (c : ℕ)
    → digits_value acc (ds ++ c ∷ []) ≡ digits_value acc ds * 10 + (c - 48)
digits_value-snoc acc [] c = refl
digits_value-snoc acc (d ∷ ds) c = digits_value-snoc (acc * 10 + (d - 48)) ds c

decimal_loop-value : (fuel n : ℕ) → n < fuel → digits_value 0 (decimal_loop fuel n) ≡ n
unfolding decimal_loop
decimal_loop-value zero n lt = omega (arith, lt)
decimal_loop-value (suc fuel) n lt = elim (Bool-cases (ltb n 10)) [
  | inl y ↦ rw y (omega arith)
  | inr k ↦ rw k (
      digits_value-snoc 0 (decimal_loop fuel (n / 10)) (48 + n % 10)
      ∙ omega (arith, decimal_loop-value fuel (n / 10) (ground (arith, lt, k))))
]

All-snoc :
    (cs : List ℕ) (c : ℕ)
    → All (λ d. is_digit d ≡ true) cs
    → is_digit c ≡ true
    → All (λ d. is_digit d ≡ true) (cs ++ c ∷ [])
All-snoc [] c all h = (h, tt)
All-snoc (d ∷ cs) c all h = (all.0, All-snoc cs c all.1 h)

decimal_loop-digits : (fuel n : ℕ) → All (λ c. is_digit c ≡ true) (decimal_loop fuel n)
unfolding decimal_loop
decimal_loop-digits zero n = tt
decimal_loop-digits (suc fuel) n = elim (Bool-cases (ltb n 10)) [
  | inl y ↦ rw (y, All) (ground arith, tt)
  | inr k ↦ rw k (
      All-snoc (decimal_loop fuel (n / 10)) (48 + n % 10) (decimal_loop-digits fuel (n / 10))
        (ground arith))
]

pub digits_value-decimal : (n : ℕ) → digits_value 0 (decimal n) ≡ n
digits_value-decimal n = decimal_loop-value (suc n) n (omega arith)

pub decimal-digits : (n : ℕ) → All (λ c. is_digit c ≡ true) (decimal n)
decimal-digits n = decimal_loop-digits (suc n) n

-- Digits stop at what is none.
abbrev pub StartsNoDigit : List ℕ → Type 0
StartsNoDigit [] = Unit {0}
StartsNoDigit (c ∷ cs) = is_digit c ≡ false

pub span_digits-append :
    (ds rest : List ℕ)
    → All (λ c. is_digit c ≡ true) ds
    → StartsNoDigit rest
    → span_digits (ds ++ rest) ≡ (ds, rest)
unfolding span_digits
span_digits-append [] [] all no_digit = refl
span_digits-append [] (c ∷ rest) all no_digit = rw no_digit refl
span_digits-append (d ∷ ds) rest all no_digit =
    rw all.0 (ap (λ p. (d ∷ p.0, p.1)) (span_digits-append ds rest all.1 no_digit))

snoc-nonempty : (cs : List ℕ) (c : ℕ) → cs ++ c ∷ [] ≢ []
snoc-nonempty [] c e = ground arith
snoc-nonempty (d ∷ cs) c e = ground arith

pub decimal-nonempty : (n : ℕ) → decimal n ≢ []
unfolding decimal_loop
decimal-nonempty n e = elim (Bool-cases (ltb n 10)) [
  | inl y ↦ ground arith
  | inr k ↦ snoc-nonempty (decimal_loop n (n / 10)) (48 + n % 10) (ground (arith, e, k))
]
