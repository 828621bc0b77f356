-- ===== src/Json.antt =====
-- The values that the code takes as `unknown`: JSON, with `undefined`, and byte arrays, which the
-- sockets deliver inside it (shared/src/streamer/internal/unknown.ts, and the `typeof` tests of the
-- normalising code). A text is a native `String` here: the code compares it whole.
use Prim.Native.String.{String}
use text.Mathlib.Text.{◌==◌ as str_eq}
use uurc_web_new.Prelude.{
  ℕ, Bool, false, not, Option, none, some, List, [], ◌∷◌, any, if◌then◌else◌, ◌==◌,
}
use uurc_web_new.Prelude.Int.{ℤ, pos}

-- A JavaScript number: an integer, one of the finite numbers that are none, or NaN and the
-- infinities.
pub data JsNumber : Type 0 where
  whole : ℤ → JsNumber
  fraction : ℕ → JsNumber
  not_finite : JsNumber

mutual
  pub data Json : Type 0 where
    undefined null : Json
    bool : Bool → Json
    num : JsNumber → Json
    str : String → Json
    bin : List ℕ → Json
    arr : Items → Json
    obj : Fields → Json

  pub data Items : Type 0 where
    nil : Items
    cons : Json → Items → Items

  pub data Fields : Type 0 where
    end : Fields
    field : String → Json → Fields → Fields

-- `typeof value === "string" && value.length > 0`
abbrev pub is_full : String → Bool
is_full s = not (str_eq s "")

-- `record[key]`, which is `undefined` where there is no such key.
abbrev pub prop : String → Fields → Json
prop key end = undefined
prop key (field k v rest) = if str_eq k key then v else prop key rest

-- `asRecord`. A byte array is an object without any of the keys that the code asks for.
abbrev pub as_record : Json → Option Fields
as_record (obj fields) = some fields
as_record (bin bytes) = some end
as_record _ = none

-- `asRecord(value)?.[key]`
abbrev pub prop_of : String → Option Fields → Json
prop_of key none = undefined
prop_of key (some fields) = prop key fields

-- `a ?? b`
abbrev pub or_else : Json → Json → Json
or_else undefined b = b
or_else null b = b
or_else a b = a

-- `typeof value === "string" ? value : undefined`, as `assignOptionalString` tests it.
abbrev pub string_of : Json → Option String
string_of (str s) = some s
string_of _ = none

-- `typeof value === "string" && value.length > 0`
abbrev pub full_string_of : Json → Option String
full_string_of (str s) = if is_full s then some s else none
full_string_of _ = none

-- `typeof value === "number" && Number.isFinite(value)`, as `assignOptionalNumber` tests it.
abbrev pub finite_of : Json → Option JsNumber
finite_of (num (whole z)) = some (whole z)
finite_of (num (fraction n)) = some (fraction n)
finite_of _ = none

-- `assignOptionalBoolean`
abbrev pub bool_of : Json → Option Bool
bool_of (bool b) = some b
bool_of _ = none

-- `value === code`, of a number and an integer constant.
abbrev pub is_code : ℕ → JsNumber → Bool
is_code n (whole (pos m)) = m == n
is_code n _ = false

abbrev pub items : Items → List Json
items nil = []
items (cons v vs) = v ∷ items vs

abbrev pub to_items : List Json → Items
to_items [] = nil
to_items (v ∷ vs) = cons v (to_items vs)

-- `list.includes(text)`
abbrev pub one_of : List String → String → Bool
one_of list text = any (λ s. str_eq s text) list
