-- ===== src/Prelude/Errors.antt =====
-- Exceptions as values: what a function that may throw returns.

-- The classes of error that the modelled code throws.
pub data Thrown : Type 0 where
  range_error validation_error plain_error : Thrown

pub data Outcome {ℓ} (A : Type ℓ) : Type ℓ where
  ok : A → Outcome A
  throw : Thrown → Outcome A

infixl 5 ◌>>=◌
abbrev pub ◌>>=◌ {ℓ κ} :
    {A : Type ℓ} {B : Type κ} → (first : Outcome A) → (next : A → Outcome B) → Outcome B
throw thrown >>= next = throw thrown
ok value >>= next = next value

-- For a first part that only may throw.
infixl 5 ◌>>◌
abbrev pub ◌>>◌ {ℓ} : {B : Type ℓ} → (check : Outcome (Unit {0})) → (rest : Outcome B) → Outcome B
check >> rest = check >>= λ _. rest
