-- ===== src/Prelude/Lists.antt =====
-- Lists measured and indexed by native numbers, under the library's names.
use Prim.Native.Nat.{ℕ, zero, suc, ◌+◌, ◌-◌, ◌<◌, min}
use mathlib.Core.Logic.{◌≢◌, ◌↔◌, ◌⊎◌}
use mathlib.Core.Path.{◌≡◌, refl, ap}
use mathlib.Core.Bool.{Bool, true, false}
use mathlib.Core.List.{List, [], ◌∷◌, ◌++◌}
use mathlib.Core.Option.{Option, none, some}
use native.Mathlib.Omega.{arith}
use uurc_web_new.Prelude.Tests.{if◌then◌else◌}

module _ {ℓ} {A : Type ℓ} where
  abbrev pub length : List A → ℕ
  length [] = 0
  length (x ∷ xs) = suc (length xs)

  abbrev pub get_elem? : List A → ℕ → Option A
  get_elem? [] i = none
  get_elem? (x ∷ xs) zero = some x
  get_elem? (x ∷ xs) (suc i) = get_elem? xs i

  abbrev pub take : ℕ → List A → List A
  take zero xs = []
  take (suc n) [] = []
  take (suc n) (x ∷ xs) = x ∷ take n xs

  abbrev pub drop : ℕ → List A → List A
  drop zero xs = xs
  drop (suc n) [] = []
  drop (suc n) (x ∷ xs) = drop n xs

  -- `filter(p)` of a Boolean test.
  abbrev pub select : (A → Bool) → List A → List A
  select p [] = []
  select p (x ∷ xs) = if p x then x ∷ select p xs else select p xs

  -- `at(-1)`.
  abbrev pub last? : List A → Option A
  last? [] = none
  last? (x ∷ []) = some x
  last? (x ∷ y ∷ ys) = last? (y ∷ ys)

  -- `some(p)`.
  abbrev pub any : (A → Bool) → List A → Bool
  any p [] = false
  any p (x ∷ xs) = if p x then true else any p xs

  abbrev pub All {κ} : (A → Type κ) → List A → Type κ
  All P [] = Unit {κ}
  All P (x ∷ xs) = P x × All P xs

  abbrev pub Any : (A → Type 0) → List A → Type 0
  Any P [] = ⊥
  Any P (x ∷ xs) = P x ⊎ Any P xs

  pub Any-nonempty : (P : A → Type 0) (xs : List A) → Any P xs → xs ≢ []
  Any-nonempty P [] p = elim p [ ]
  Any-nonempty P (x ∷ xs) p = λ e. ground arith

  pub Any-append : (P : A → Type 0) (xs ys : List A) → Any P (xs ++ ys) ↔ (Any P xs ⊎ Any P ys)
  Any-append P [] ys = ground arith
  Any-append P (x ∷ xs) ys = ground (arith, Any-append P xs ys)

  pub length-append : (xs ys : List A) → length (xs ++ ys) ≡ length xs + length ys
  length-append [] ys = omega arith
  length-append (x ∷ xs) ys = omega (arith, length-append xs ys)

  pub take-append_length : (xs ys : List A) → take (length xs) (xs ++ ys) ≡ xs
  take-append_length [] ys = refl
  take-append_length (x ∷ xs) ys = ap (◌∷◌ x) (take-append_length xs ys)

  pub length-take : (n : ℕ) (xs : List A) → length (take n xs) ≡ min n (length xs)
  length-take zero xs = omega arith
  length-take (suc n) [] = omega arith
  length-take (suc n) (x ∷ xs) = omega (arith, length-take n xs)

  pub length-drop : (n : ℕ) (xs : List A) → length (drop n xs) ≡ length xs - n
  length-drop zero xs = omega arith
  length-drop (suc n) [] = omega arith
  length-drop (suc n) (x ∷ xs) = omega (arith, length-drop n xs)

  -- Reading at an offset and going on behind it, in terms of the suffix that stands there.
  pub get_elem?-of_drop :
      (n : ℕ) (xs : List A) (x : A) (ys : List A) → drop n xs ≡ x ∷ ys → get_elem? xs n ≡ some x
  get_elem?-of_drop zero [] x ys h = cc
  get_elem?-of_drop zero (z ∷ zs) x ys h = ground arith
  get_elem?-of_drop (suc n) [] x ys h = cc
  get_elem?-of_drop (suc n) (z ∷ zs) x ys h = get_elem?-of_drop n zs x ys h

  pub get_elem?-of_drop_nil : (n : ℕ) (xs : List A) → drop n xs ≡ [] → get_elem? xs n ≡ none
  get_elem?-of_drop_nil zero [] h = refl
  get_elem?-of_drop_nil zero (z ∷ zs) h = cc
  get_elem?-of_drop_nil (suc n) [] h = refl
  get_elem?-of_drop_nil (suc n) (z ∷ zs) h = get_elem?-of_drop_nil n zs h

  pub drop-suc :
      (n : ℕ) (xs : List A) (x : A) (ys : List A) → drop n xs ≡ x ∷ ys → drop (suc n) xs ≡ ys
  drop-suc zero [] x ys h = cc
  drop-suc zero (z ∷ zs) x ys h = ground arith
  drop-suc (suc n) [] x ys h = cc
  drop-suc (suc n) (z ∷ zs) x ys h = drop-suc n zs x ys h

  pub drop-append :
      (n : ℕ) (xs ys zs : List A) → drop n xs ≡ ys ++ zs → drop (n + length ys) xs ≡ zs
  drop-append n xs [] zs h = let e : n + 0 ≡ n = omega arith in rw e h
  drop-append n xs (y ∷ ys) zs h =
      let e : n + suc (length ys) ≡ suc n + length ys = omega arith in
      rw e (drop-append (suc n) xs ys zs (drop-suc n xs y (ys ++ zs) h))

  pub drop-length : (xs ys : List A) → drop (length xs) (xs ++ ys) ≡ ys
  drop-length [] ys = refl
  drop-length (x ∷ xs) ys = drop-length xs ys

  -- A suffix that is not empty starts inside the list.
  pub length-of_drop :
      (n : ℕ) (xs ys : List A) → drop n xs ≡ ys → 0 < length ys → n + length ys ≡ length xs
  length-of_drop n xs ys h p = omega (arith, ap (λ (l : List A). length l) h, length-drop n xs)

  pub lt-length-of_get_elem? :
      (xs : List A) (n : ℕ) (x : A) → get_elem? xs n ≡ some x → n < length xs
  lt-length-of_get_elem? [] n x h = cc
  lt-length-of_get_elem? (y ∷ ys) zero x h = omega arith
  lt-length-of_get_elem? (y ∷ ys) (suc n) x h = omega (arith, lt-length-of_get_elem? ys n x h)
