-- ===== src/Requests/Readers.antt =====
-- What each test of a field lets through.
use Prim.Native.String.{String}
use text.Mathlib.Text.{◌==◌ as str_eq}
use text.Mathlib.TextEquality.{eq_iff}
use uurc_web_new.Prelude.{
  ℕ, ◌≡◌, ◌≢◌, ◌↔◌, inl, inr, refl, ap, ◌∙◌, Bool, Option, none, some, List, [], ◌∷◌, All, arith,
  Bool-cases, Option-cases, subst, Outcome, ok, throw, validation_error, ◌>>=◌,
}
use uurc_web_new.Prelude.Int.{ℤ, pos}
use uurc_web_new.Json.{
  Json, Items, Fields, undefined, bool, num, whole, str, arr, obj, nil, cons, end,
}
use uurc_web_new.Readiness.Payload.{SoacType, offer, answer, candidate, restart_ice, soac_type_of}
use uurc_web_new.Requests.{
  IceNetworkType, ice_network_number, object_of, plain_object_of, required_string, optional_string,
  optional_boolean, optional_natural, optional_integer, optional_network_type, required_soac_type,
  string_items, string_array, unless_undefined,
}

bind-ok {ℓ κ} :
    {A : Type ℓ} {B : Type κ} (m : Outcome A) (k : A → Outcome B) (b : B)
    → (m >>= k) ≡ ok b
    → (a : A) × (m ≡ ok a) × (k a ≡ ok b)
bind-ok (ok a) k b e = (a, refl, e)
bind-ok (throw t) k b e = ground arith

-- The same, for a chain of reads: what follows from each of them.
pub bind-ok_then {ℓ κ μ} :
    {A : Type ℓ} {B : Type κ} {C : Type μ} {k : A → Outcome B} {b : B} (m : Outcome A)
    → (m >>= k) ≡ ok b
    → ((a : A) → m ≡ ok a → k a ≡ ok b → C)
    → C
bind-ok_then (ok a) e h = h a refl e
bind-ok_then (throw t) e h = ground arith

pub ok_injective {ℓ} : {A : Type ℓ} {a b : A} → ok a ≡ ok b → a ≡ b
ok_injective e = ground arith

-- The value of a field that holds an option.
abbrev pub optional {ℓ} : {A : Type ℓ} → (A → Json) → Option A → Json
optional json none = undefined
optional json (some a) = json a

abbrev pub natural : ℕ → Json
natural n = num (whole (pos n))

abbrev pub integer : ℤ → Json
integer z = num (whole z)

abbrev pub network_type : IceNetworkType → Json
network_type t = natural (ice_network_number t)

abbrev pub type_name : SoacType → String
type_name offer = "offer"
type_name answer = "answer"
type_name candidate = "candidate"
type_name restart_ice = "restart_ice"

abbrev pub strings : List String → Items
strings [] = nil
strings (s ∷ ss) = cons (str s) (strings ss)

pub optional_string_iff :
    (v : Json) (o : Option String) → (optional_string v ≡ ok o) ↔ (v ≡ optional str o)
unfolding optional_string
optional_string_iff v o = ground arith

pub optional_boolean_iff :
    (v : Json) (o : Option Bool) → (optional_boolean v ≡ ok o) ↔ (v ≡ optional bool o)
unfolding optional_boolean
optional_boolean_iff v o = ground arith

pub optional_natural_iff :
    (v : Json) (o : Option ℕ) → (optional_natural v ≡ ok o) ↔ (v ≡ optional natural o)
unfolding optional_natural
optional_natural_iff v o = ground arith

pub optional_integer_iff :
    (v : Json) (o : Option ℤ) → (optional_integer v ≡ ok o) ↔ (v ≡ optional integer o)
unfolding optional_integer
optional_integer_iff v o = ground arith

pub optional_network_type_iff :
    (v : Json) (o : Option IceNetworkType)
    → (optional_network_type v ≡ ok o) ↔ (v ≡ optional network_type o)
unfolding optional_network_type
optional_network_type_iff v o = ground arith

pub required_string_iff :
    (v : Json) (s : String) → (required_string v ≡ ok s) ↔ ((v ≡ str s) × (s ≢ ""))
unfolding required_string
required_string_iff (str u) s = ground (arith, eq_iff u "", eq_iff s "")
required_string_iff _ s = ground arith

type_name-read : (t : SoacType) → soac_type_of (str (type_name t)) ≡ some t
type_name-read offer = refl
type_name-read answer = refl
type_name-read candidate = refl
type_name-read restart_ice = refl

soac_type_of-name : (u : String) (t : SoacType) → soac_type_of (str u) ≡ some t → u ≡ type_name t
soac_type_of-name u t e = elim (Bool-cases (str_eq u "offer")) [
  | inl y ↦ ground (arith, eq_iff u "offer")
  | inr n ↦ elim (Bool-cases (str_eq u "answer")) [
    | inl y ↦ ground (arith, eq_iff u "answer")
    | inr n' ↦ elim (Bool-cases (str_eq u "candidate")) [
      | inl y ↦ ground (arith, eq_iff u "candidate")
      | inr k ↦ elim (Bool-cases (str_eq u "restart_ice")) [
        | inl y ↦ ground (arith, eq_iff u "restart_ice")
        | inr m ↦ ground arith
      ]
    ]
  ]
]

soac_type_of-str : (v : Json) (t : SoacType) → soac_type_of v ≡ some t → v ≡ str (type_name t)
soac_type_of-str (str u) t e = ap str (soac_type_of-name u t e)
soac_type_of-str _ t e = ground arith

pub required_soac_type_iff :
    (v : Json) (t : SoacType) → (required_soac_type v ≡ ok t) ↔ (v ≡ str (type_name t))
unfolding required_soac_type
required_soac_type_iff v t = (
  λ e. elim (Option-cases (soac_type_of v)) [
    | inl n ↦ ground arith
    | inr (u, y) ↦ soac_type_of-str v t (ground arith)
  ],
  λ e. ground (arith, ap soac_type_of e ∙ type_name-read t),
)

bind-some_iff {ℓ} :
    {A : Type ℓ} (m : Outcome A) (a : A) → ((m >>= λ b. ok (some b)) ≡ ok (some a)) ↔ (m ≡ ok a)
bind-some_iff m a = ground arith

bind-some-none {ℓ} : {A : Type ℓ} (m : Outcome A) → (m >>= λ b. ok (some b)) ≢ ok none
bind-some-none m e = ground arith

-- A value that is there is read, and its reading is what the option holds.
unless_undefined-some_iff {ℓ} :
    {A : Type ℓ} (read : Json → Outcome A) (v : Json) (a : A)
    → read undefined ≡ throw validation_error
    → (unless_undefined read v ≡ ok (some a)) ↔ (read v ≡ ok a)
unless_undefined-some_iff read undefined a h = ground arith
unless_undefined-some_iff read v a h = bind-some_iff (read v) a

unless_undefined-none_iff {ℓ} :
    {A : Type ℓ} (read : Json → Outcome A) (v : Json)
    → (unless_undefined read v ≡ ok none) ↔ (v ≡ undefined)
unless_undefined-none_iff read undefined = ground arith
unless_undefined-none_iff read v = ground (arith, bind-some-none (read v))

-- An object is needed where a field is required.
pub object_of_iff {ℓ} :
    {A : Type ℓ} (read : Fields → Outcome A) (v : Json) (a : A)
    → read end ≡ throw validation_error
    → ((object_of v >>= read) ≡ ok a) ↔ ((f : Fields) × (v ≡ obj f) × (read f ≡ ok a))
unfolding object_of
object_of_iff read (obj f) a h = (λ e. (f, refl, e), λ (g, p, e). ground arith)
object_of_iff read _ a h = ground arith

plain_object_of_iff {ℓ} :
    {A : Type ℓ} (read : Fields → Outcome A) (v : Json) (a : A)
    → read end ≡ throw validation_error
    → ((plain_object_of v >>= read) ≡ ok a) ↔ ((f : Fields) × (v ≡ obj f) × (read f ≡ ok a))
unfolding plain_object_of
plain_object_of_iff read (obj f) a h = (λ e. (f, refl, e), λ (g, p, e). ground arith)
plain_object_of_iff read _ a h = ground arith

-- No value for none, and otherwise an object that says what there is.
abbrev pub Described : {A : Type 0} → (Fields → A → Type 0) → Json → Option A → Type 0
Described Is v none = v ≡ undefined
Described Is v (some a) = (f : Fields) × (v ≡ obj f) × Is f a

pub object_of-Described_iff :
    {A : Type 0} {Is : Fields → A → Type 0} (read : Fields → Outcome A)
    → ((f : Fields) (a : A) → (read f ≡ ok a) ↔ Is f a)
    → read end ≡ throw validation_error
    → (v : Json) (o : Option A)
    → (unless_undefined (λ value. object_of value >>= read) v ≡ ok o) ↔ Described Is v o
unfolding object_of
object_of-Described_iff read reads refused v none =
    unless_undefined-none_iff (λ value. object_of value >>= read) v
object_of-Described_iff read reads refused v (some a) =
    let (to, from) = unless_undefined-some_iff (λ value. object_of value >>= read) v a refl in
    let (to', from') = object_of_iff read v a refused in
    (
      λ e. let (f, p, e') = to' (to e) in (f, p, (reads f a).0 e'),
      λ (f, p, h). from (from' (f, p, (reads f a).1 h)),
    )

pub plain_object_of-Described_iff :
    {A : Type 0} {Is : Fields → A → Type 0} (read : Fields → Outcome A)
    → ((f : Fields) (a : A) → (read f ≡ ok a) ↔ Is f a)
    → read end ≡ throw validation_error
    → (v : Json) (o : Option A)
    → (unless_undefined (λ value. plain_object_of value >>= read) v ≡ ok o) ↔ Described Is v o
unfolding plain_object_of
plain_object_of-Described_iff read reads refused v none =
    unless_undefined-none_iff (λ value. plain_object_of value >>= read) v
plain_object_of-Described_iff read reads refused v (some a) =
    let (to, from) = unless_undefined-some_iff (λ value. plain_object_of value >>= read) v a refl in
    let (to', from') = plain_object_of_iff read v a refused in
    (
      λ e. let (f, p, e') = to' (to e) in (f, p, (reads f a).0 e'),
      λ (f, p, h). from (from' (f, p, (reads f a).1 h)),
    )

strings-read : (ss : List String) → All (λ s. s ≢ "") ss → string_items (strings ss) ≡ ok ss
strings-read [] full = refl
strings-read (s ∷ ss) full =
    rw ((required_string_iff (str s) s).1 (refl, full.0)) (rw (strings-read ss full.1) refl)

string_items-strings :
    (vs : Items) (ss : List String)
    → string_items vs ≡ ok ss
    → (vs ≡ strings ss) × All (λ s. s ≢ "") ss
string_items-strings nil [] e = (refl, tt)
string_items-strings nil (s ∷ ss) e = ground arith
string_items-strings (cons v vs) ss e =
    let (s, read, e') =
      bind-ok (required_string v) (λ s. string_items vs >>= λ ss. ok (s ∷ ss)) ss e in
    let (ss', read', e'') = bind-ok (string_items vs) (λ ss. ok (s ∷ ss)) ss e' in
    let (is, full) = (required_string_iff v s).0 read in
    let (are, full') = string_items-strings vs ss' read' in
    let path : (s ∷ ss') ≡ ss = ground arith in
    subst (λ l. (cons v vs ≡ strings l) × All (λ s. s ≢ "") l) path (ground arith, (full, full'))

string_array-strings :
    (v : Json) (ss : List String)
    → string_array v ≡ ok ss
    → (v ≡ arr (strings ss)) × All (λ s. s ≢ "") ss
unfolding string_array
string_array-strings (arr vs) ss e =
    let (are, full) = string_items-strings vs ss e in (ap arr are, full)
string_array-strings _ ss e = ground arith

pub string_array_iff :
    (v : Json) (ss : List String)
    → (string_array v ≡ ok ss) ↔ ((v ≡ arr (strings ss)) × All (λ s. s ≢ "") ss)
unfolding string_array
string_array_iff v ss =
    (string_array-strings v ss, λ (p, full). ap string_array p ∙ strings-read ss full)
