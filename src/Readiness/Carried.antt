-- ===== src/Readiness/Carried.antt =====
-- What it is for a payload to carry a type of message, and that `soac_types` finds it.
use Prim.Native.String.{String}
use text.Mathlib.Text.{◌==◌ as str_eq}
use text.Mathlib.TextEquality.{eq_iff}
use uurc_web_new.Prelude.{
  ◌≡◌, ◌≢◌, ◌↔◌, ◌⊎◌, inl, inr, refl, sym, subst, ap, ◌∙◌, Option, none, some, List, arith,
  Bool-cases, Any, Any-append,
}
use uurc_web_new.Json.{
  Json, Fields, Items, str, bin, arr, obj, nil, cons, end, field, prop, prop_of, as_record,
}
use uurc_web_new.Readiness.Payload.{
  SoacType, offer, answer, candidate, restart_ice, soac_type_of, known_types, soac_types,
  item_types, array_types, data_types,
}

-- The text of a type.
abbrev pub name_of : SoacType → String
name_of offer = "offer"
name_of answer = "answer"
name_of candidate = "candidate"
name_of restart_ice = "restart_ice"

-- An array carries what an entry carries. An object carries what an entry of its `data` carries, if
-- that is an array; else the type that its `type` names, and the type that `type` of its `data` names.
mutual
  pub data Carries (t : SoacType) : Json → Type 0 where
    in_array : {vs : Items} → Among t vs → Carries t (arr vs)
    in_data_array :
        {fields : Fields} {vs : Items}
        → prop "data" fields ≡ arr vs
        → Among t vs
        → Carries t (obj fields)
    by_type :
        {fields : Fields}
        → ((vs : Items) → prop "data" fields ≢ arr vs)
        → prop "type" fields ≡ str (name_of t)
        → Carries t (obj fields)
    by_data_type :
        {fields inner : Fields}
        → prop "data" fields ≡ obj inner
        → prop "type" inner ≡ str (name_of t)
        → Carries t (obj fields)

  pub data Among (t : SoacType) : Items → Type 0 where
    first : {v : Json} {vs : Items} → Carries t v → Among t (cons v vs)
    later : {v : Json} {vs : Items} → Among t vs → Among t (cons v vs)

abbrev pub Lists : SoacType → List SoacType → Type 0
Lists t types = Any (λ u. u ≡ t) types

known_types-Lists :
    (t : SoacType) (a b : Option SoacType)
    → Lists t (known_types a b) ↔ ((a ≡ some t) ⊎ (b ≡ some t))
known_types-Lists t none none = ground arith
known_types-Lists t none (some b) = ground arith
known_types-Lists t (some a) none = ground arith
known_types-Lists t (some a) (some b) = ground arith

soac_type_of-name : (t : SoacType) → soac_type_of (str (name_of t)) ≡ some t
soac_type_of-name offer = refl
soac_type_of-name answer = refl
soac_type_of-name candidate = refl
soac_type_of-name restart_ice = refl

text_of_type : (s : String) (t : SoacType) → soac_type_of (str s) ≡ some t → s ≡ name_of t
text_of_type s offer e = ground (arith, eq_iff s "offer", e)
text_of_type s answer e = ground (arith, eq_iff s "answer", e)
text_of_type s candidate e = ground (arith, eq_iff s "candidate", e)
text_of_type s restart_ice e = ground (arith, eq_iff s "restart_ice", e)

name_of_type : (v : Json) (t : SoacType) → soac_type_of v ≡ some t → v ≡ str (name_of t)
name_of_type (str s) t e = ap str (text_of_type s t e)
name_of_type _ t e = ground arith

data_types-prop : (fields : Fields) → data_types fields ≡ array_types (prop "data" fields)
unfolding data_types array_types
data_types-prop end = refl
data_types-prop (field k v rest) = elim (Bool-cases (str_eq k "data")) [
  | inl y ↦ rw y refl
  | inr n ↦ rw n (data_types-prop rest)
]

known_if : (t : SoacType) (v : Json) → v ≡ str (name_of t) → soac_type_of v ≡ some t
known_if t v e = ap soac_type_of e ∙ soac_type_of-name t

-- The object's own type and that of its data.
abbrev object_types : Fields → List SoacType
object_types fields =
    known_types (soac_type_of (prop "type" fields))
      (soac_type_of (prop_of "type" (as_record (prop "data" fields))))

soac_types-array :
    (fields : Fields) (vs : Items)
    → prop "data" fields ≡ arr vs
    → soac_types (obj fields) ≡ item_types vs
unfolding soac_types array_types
soac_types-array fields vs e = rw (data_types-prop fields) (rw e refl)

no_array : (v : Json) → ((vs : Items) → v ≢ arr vs) → array_types v ≡ none
unfolding array_types
no_array (arr vs) h = elim (h vs refl) [ ]
no_array _ h = refl

soac_types-object :
    (fields : Fields)
    → ((vs : Items) → prop "data" fields ≢ arr vs)
    → soac_types (obj fields) ≡ object_types fields
unfolding soac_types
soac_types-object fields h = rw (data_types-prop fields) (rw (no_array (prop "data" fields) h) refl)

object-no_array : {v : Json} {inner : Fields} → v ≡ obj inner → (vs : Items) → v ≢ arr vs
object-no_array d vs e = ground (arith, d, e)

object_types-own :
    (t : SoacType) (fields : Fields)
    → prop "type" fields ≡ str (name_of t)
    → Lists t (object_types fields)
object_types-own t fields e =
    (known_types-Lists t (soac_type_of (prop "type" fields))
        (soac_type_of (prop_of "type" (as_record (prop "data" fields))))).1
      (inl (known_if t (prop "type" fields) e))

object_types-inner :
    (t : SoacType) (fields inner : Fields)
    → prop "data" fields ≡ obj inner
    → prop "type" inner ≡ str (name_of t)
    → Lists t (object_types fields)
object_types-inner t fields inner d e =
    (known_types-Lists t (soac_type_of (prop "type" fields))
        (soac_type_of (prop_of "type" (as_record (prop "data" fields))))).1
      (inr (
        ap (λ v. soac_type_of (prop_of "type" (as_record v))) d ∙ known_if t (prop "type" inner) e))

array_cases : (v : Json) → ((vs : Items) × (v ≡ arr vs)) ⊎ ((vs : Items) → v ≢ arr vs)
array_cases (arr vs) = inl (vs, refl)
array_cases _ = inr λ vs e. ground (arith, e)

inner_of_type :
    (t : SoacType) (v : Json)
    → soac_type_of (prop_of "type" (as_record v)) ≡ some t
    → (inner : Fields) × (v ≡ obj inner) × (prop "type" inner ≡ str (name_of t))
inner_of_type t (obj inner) e = (inner, refl, name_of_type (prop "type" inner) t e)
inner_of_type t (bin bytes) e = ground (arith, e)
inner_of_type t _ e = ground (arith, e)

object_types-Carries :
    (t : SoacType) (fields : Fields)
    → ((vs : Items) → prop "data" fields ≢ arr vs)
    → Lists t (object_types fields)
    → Carries t (obj fields)
object_types-Carries t fields h m =
    elim ((known_types-Lists t (soac_type_of (prop "type" fields))
        (soac_type_of (prop_of "type" (as_record (prop "data" fields))))).0
      m) [
        | inl e ↦ by_type h (name_of_type (prop "type" fields) t e)
        | inr e ↦ let (inner, d, e') = inner_of_type t (prop "data" fields) e in by_data_type d e'
      ]

mutual
  unfolding soac_types item_types

  Carries-Lists : (t : SoacType) (v : Json) → Carries t v → Lists t (soac_types v)
  Carries-Lists t v (in_array a) = Among-Lists t _ a
  Carries-Lists t v (in_data_array {fields} {vs} e a) =
      subst (Lists t) (sym (soac_types-array fields vs e)) (Among-Lists t vs a)
  Carries-Lists t v (by_type {fields} h e) =
      subst (Lists t) (sym (soac_types-object fields h)) (object_types-own t fields e)
  Carries-Lists t v (by_data_type {fields} {inner} d e) =
      subst (Lists t) (sym (soac_types-object fields (object-no_array d)))
        (object_types-inner t fields inner d e)

  Among-Lists : (t : SoacType) (vs : Items) → Among t vs → Lists t (item_types vs)
  Among-Lists t us (first {v} {vs} c) =
      (Any-append (λ u. u ≡ t) (soac_types v) (item_types vs)).1 (inl (Carries-Lists t v c))
  Among-Lists t us (later {v} {vs} a) =
      (Any-append (λ u. u ≡ t) (soac_types v) (item_types vs)).1 (inr (Among-Lists t vs a))

mutual
  unfolding soac_types item_types

  Lists-Carries : (t : SoacType) (v : Json) → Lists t (soac_types v) → Carries t v
  Lists-Carries t (arr vs) m = in_array (Lists-Among t vs m)
  Lists-Carries t (obj fields) m = elim (array_cases (prop "data" fields)) [
    | inl (vs, e) ↦
        in_data_array e
          (data-Among t fields vs e (subst (Lists t) (soac_types-array fields vs e) m))
    | inr h ↦ object_types-Carries t fields h (subst (Lists t) (soac_types-object fields h) m)
  ]
  Lists-Carries t _ m = elim m [ ]

  Lists-Among : (t : SoacType) (vs : Items) → Lists t (item_types vs) → Among t vs
  Lists-Among t nil m = elim m [ ]
  Lists-Among t (cons v vs) m =
      elim ((Any-append (λ u. u ≡ t) (soac_types v) (item_types vs)).0 m) [
        | inl c ↦ first (Lists-Carries t v c)
        | inr a ↦ later (Lists-Among t vs a)
      ]

  data-Among :
      (t : SoacType) (fields : Fields) (vs : Items)
      → prop "data" fields ≡ arr vs
      → Lists t (item_types vs)
      → Among t vs
  data-Among t end vs e m = ground (arith, e)
  data-Among t (field k (arr us) rest) vs e m = elim (Bool-cases (str_eq k "data")) [
    | inl y ↦
        let path : us ≡ vs = ground (arith, e, y) in
        subst (Among t) path (Lists-Among t us (subst (λ w. Lists t (item_types w)) (sym path) m))
    | inr n ↦ data-Among t rest vs (rw n at e) m
  ]
  data-Among t (field k _ rest) vs e m = elim (Bool-cases (str_eq k "data")) [
    | inl y ↦ ground (arith, e, y)
    | inr n ↦ data-Among t rest vs (rw n at e) m
  ]

-- The types that are listed for a payload are those that it carries.
pub soac_types-Carries_iff : (t : SoacType) (v : Json) → Lists t (soac_types v) ↔ Carries t v
soac_types-Carries_iff t v = (Lists-Carries t v, Carries-Lists t v)
