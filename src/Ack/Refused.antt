-- ===== src/Ack/Refused.antt =====
-- When an acknowledgement, as the server sends it, is a failure.
use Prim.Native.String.{String}
use text.Mathlib.TextEquality.{eq_iff}
use uurc_web_new.Prelude.{
  ℕ, ◌==◌, ◌≡◌, ◌≢◌, ◌↔◌, ◌⊎◌, inl, inr, refl, Option, none, some, arith, Bool-cases,
}
use uurc_web_new.Prelude.Int.{pos, negsuc}
use uurc_web_new.Json.{
  JsNumber, whole, fraction, not_finite, Json, Fields, Items, num, str, bin, arr, obj, nil, cons,
  prop, finite_of, items,
}
use uurc_web_new.Ack.{
  entries_of, first_string, first_record, normalize_ack, control_result, code_of, control_failure,
}
use uurc_web_new.Ack.Laws.{control_failure-none_iff}

-- The acknowledgement, or the first entry of one that is an array, is a text other than `success`.
abbrev pub IsRefusal : Json → Type 0
IsRefusal (str status) = status ≢ "success"
IsRefusal (arr (cons (str status) rest)) = status ≢ "success"
IsRefusal _ = ⊥

-- Its `code` is a finite number other than 0.
abbrev pub HasBadCode : Fields → Type 0
HasBadCode fields =
    (code : JsNumber) × (prop "code" fields ≡ num code)
    × (code ≢ not_finite)
    × (code ≢ whole (pos 0))

-- The first object of a list has such a code; the later ones do not count. Bytes are an object
-- without a code.
abbrev pub FirstObjectIsBad : Items → Type 0
FirstObjectIsBad nil = ⊥
FirstObjectIsBad (cons (obj fields) rest) = HasBadCode fields
FirstObjectIsBad (cons (bin bytes) rest) = ⊥
FirstObjectIsBad (cons v rest) = FirstObjectIsBad rest

abbrev pub IsBad : Json → Type 0
IsBad (obj fields) = HasBadCode fields
IsBad (arr entries) = FirstObjectIsBad entries
IsBad _ = ⊥

-- The status that is read is missing or `success`.
abbrev IsFine : Option String → Type 0
IsFine status = (status ≡ none) ⊎ (status ≡ some "success")

-- The code that is read is missing or 0.
abbrev IsGood : Option JsNumber → Type 0
IsGood code = (code ≡ none) ⊎ (code ≡ some (whole (pos 0)))

text-IsFine_iff : (s : String) → IsFine (some s) ↔ (¬ (s ≢ "success"))
text-IsFine_iff s = ground (arith, eq_iff s "success")

missing-IsFine_iff : IsFine none ↔ (¬ ⊥)
missing-IsFine_iff = ground arith

status-IsFine_iff : (ack : Json) → IsFine (first_string (entries_of ack)) ↔ (¬ (IsRefusal ack))
status-IsFine_iff (str s) = text-IsFine_iff s
status-IsFine_iff (arr nil) = missing-IsFine_iff
status-IsFine_iff (arr (cons (str s) rest)) = text-IsFine_iff s
status-IsFine_iff (arr (cons _ rest)) = missing-IsFine_iff
status-IsFine_iff _ = missing-IsFine_iff

-- A value is a finite number other than 0.
abbrev IsBadNumber : Json → Type 0
IsBadNumber v = (code : JsNumber) × (v ≡ num code) × (code ≢ not_finite) × (code ≢ whole (pos 0))

missing-IsGood_iff :
    (v : Json) → ((code : JsNumber) → v ≢ num code) → IsGood none ↔ (¬ (IsBadNumber v))
missing-IsGood_iff v h = (λ _ b. h b.0 b.1, λ _. inl refl)

zero-IsGood : (n : ℕ) → ¬ (IsBadNumber (num (whole (pos n)))) → IsGood (some (whole (pos n)))
zero-IsGood n h = elim (Bool-cases (n == 0)) [
  | inl y ↦ ground (arith, y)
  | inr k ↦ elim (h (whole (pos n), refl, λ e. ground (arith, e), λ e. ground (arith, e, k))) [ ]
]

code-IsGood_iff : (v : Json) → IsGood (finite_of v) ↔ (¬ (IsBadNumber v))
code-IsGood_iff (num (whole (pos n))) = (λ g b. ground (arith, g, b.1, b.3), zero-IsGood n)
code-IsGood_iff (num (whole (negsuc n))) = (
  λ g b. ground (arith, g),
  λ h. elim (h (whole (negsuc n), refl, λ e. ground (arith, e), λ e. ground (arith, e))) [ ],
)
code-IsGood_iff (num (fraction n)) = ground arith
code-IsGood_iff (num not_finite) = ground arith
code-IsGood_iff v = missing-IsGood_iff v λ code e. ground (arith, e)

record_code_of : Option Fields → Option JsNumber
record_code_of none = none
record_code_of (some fields) = finite_of (prop "code" fields)

code_of-control_result :
    (o : Option Fields)
    → code_of (elim o [ none ↦ none | some fields ↦ some (control_result fields) ])
      ≡ record_code_of o
unfolding control_result record_code_of
code_of-control_result none = refl
code_of-control_result (some fields) = refl

code_of-normalize_ack :
    (ack : Json)
    → code_of (normalize_ack ack).result ≡ record_code_of (first_record (entries_of ack))
unfolding normalize_ack
code_of-normalize_ack ack = code_of-control_result (first_record (entries_of ack))

never-IsGood_iff : IsGood none ↔ (¬ ⊥)
never-IsGood_iff = ground arith

entries-IsGood_iff :
    (vs : Items) → IsGood (record_code_of (first_record (items vs))) ↔ (¬ (FirstObjectIsBad vs))
unfolding record_code_of
entries-IsGood_iff nil = never-IsGood_iff
entries-IsGood_iff (cons (obj fields) rest) = code-IsGood_iff (prop "code" fields)
entries-IsGood_iff (cons (bin bytes) rest) = never-IsGood_iff
entries-IsGood_iff (cons _ rest) = entries-IsGood_iff rest

ack-IsGood_iff :
    (ack : Json) → IsGood (record_code_of (first_record (entries_of ack))) ↔ (¬ (IsBad ack))
unfolding record_code_of
ack-IsGood_iff (obj fields) = code-IsGood_iff (prop "code" fields)
ack-IsGood_iff (arr vs) = entries-IsGood_iff vs
ack-IsGood_iff _ = never-IsGood_iff

-- An acknowledgement as the server sends it is no failure exactly when neither it nor, of an
-- array, its first entry is a text other than `success`, and the object, or the first object among
-- the entries of an array, has no `code` that is a finite number other than 0.
pub control_failure-normalize_ack_iff :
    (ack : Json)
    → (control_failure (normalize_ack ack) ≡ none) ↔ ((¬ (IsRefusal ack)) × (¬ (IsBad ack)))
unfolding normalize_ack
control_failure-normalize_ack_iff ack = ground (
  arith,
  control_failure-none_iff (normalize_ack ack),
  code_of-normalize_ack ack,
  status-IsFine_iff ack,
  ack-IsGood_iff ack,
)
