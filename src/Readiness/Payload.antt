-- ===== src/Readiness/Payload.antt =====
-- What readiness.ts looks for in a payload. The functions walk through arrays and through the
-- property `data` of objects.
use Prim.Native.String.{String}
use text.Mathlib.Text.{◌==◌ as str_eq}
use uurc_web_new.Prelude.{
  ℕ, Bool, true, false, Option, none, some, List, [], ◌∷◌, ◌++◌, ltb, if◌then◌else◌,
}
use uurc_web_new.Json.{
  JsNumber, Json, Items, Fields, str, arr, obj, nil, cons, end, field, prop, as_record, prop_of,
  or_else, finite_of,
}

-- `trim`, `length`, `slice(0, n)` and the joining of texts.
pub record TextOps : Type 0 where
  pub trim : String → String
  pub unit_length : String → ℕ
  pub cut : ℕ → String → String
  pub join : String → String → String

-- `STREAMER_SOAC_TYPES`
pub data SoacType : Type 0 where
  offer answer candidate restart_ice : SoacType

abbrev pub soac_type_of : Json → Option SoacType
soac_type_of (str s) =
    if str_eq s "offer"
    then some offer
    else (if str_eq s "answer"
        then some answer
        else (if str_eq s "candidate"
            then some candidate
            else (if str_eq s "restart_ice" then some restart_ice else none)))
soac_type_of _ = none

abbrev pub same_type : SoacType → SoacType → Bool
same_type offer offer = true
same_type answer answer = true
same_type candidate candidate = true
same_type restart_ice restart_ice = true
same_type _ _ = false

abbrev pub or_type : Option SoacType → Option SoacType → Option SoacType
or_type none b = b
or_type (some a) b = some a

-- `[direct, nested].filter((type) => type !== null)`
abbrev pub known_types : Option SoacType → Option SoacType → List SoacType
known_types none none = []
known_types none (some b) = b ∷ []
known_types (some a) none = a ∷ []
known_types (some a) (some b) = a ∷ b ∷ []

-- `extractStreamerSoacTypes`. `data_types` is the case of an array under `data`.
unfoldable mutual
  pub soac_types : Json → List SoacType
  soac_types (arr vs) = item_types vs
  soac_types (obj fields) = elim (data_types fields) [
    | some types ↦ types
    | none ↦
        known_types (soac_type_of (prop "type" fields))
          (soac_type_of (prop_of "type" (as_record (prop "data" fields))))
  ]
  soac_types _ = []

  pub item_types : Items → List SoacType
  item_types nil = []
  item_types (cons v vs) = soac_types v ++ item_types vs

  pub array_types : Json → Option (List SoacType)
  array_types (arr vs) = some (item_types vs)
  array_types _ = none

  pub data_types : Fields → Option (List SoacType)
  data_types end = none
  data_types (field k v rest) = if str_eq k "data" then array_types v else data_types rest

module _ (ops : TextOps) where
  -- `toSafeDiagnosticString`
  unfoldable pub safe_string : Json → Option String
  safe_string (str s) =
      if str_eq (ops.trim s) ""
      then none
      else (if ltb 160 (ops.unit_length (ops.trim s))
          then some (ops.join (ops.cut 160 (ops.trim s)) "...")
          else some (ops.trim s))
  safe_string _ = none

  abbrev pub ice_id_if : SoacType → Option SoacType → Option String → Option String
  ice_id_if expected none ice_id = none
  ice_id_if expected (some type) ice_id = if same_type type expected then ice_id else none

  -- `extractLastStreamerSoacIceId`
  unfoldable mutual
    pub last_soac_ice_id : SoacType → Json → Option String
    last_soac_ice_id expected (arr vs) = last_item_ice_id expected vs
    last_soac_ice_id expected (obj fields) =
        let nested : Option Fields = as_record (prop "data" fields) in
        ice_id_if expected
          (or_type (soac_type_of (prop_of "type" nested)) (soac_type_of (prop "type" fields)))
          (safe_string (or_else (prop_of "ice_id" nested) (prop "ice_id" fields)))
    last_soac_ice_id expected _ = none

    pub last_item_ice_id : SoacType → Items → Option String
    last_item_ice_id expected nil = none
    last_item_ice_id expected (cons v vs) = elim (last_item_ice_id expected vs) [
      | some ice_id ↦ some ice_id
      | none ↦ last_soac_ice_id expected v
    ]

  -- `extractStreamerSignalIceId`
  unfoldable mutual
    pub signal_ice_id : Json → Option String
    signal_ice_id (arr vs) = item_ice_id vs
    signal_ice_id (obj fields) =
        elim (safe_string (or_else (prop "ice_id" fields) (prop "iceId" fields))) [
          | some ice_id ↦ some ice_id
          | none ↦ data_ice_id fields
        ]
    signal_ice_id _ = none

    pub item_ice_id : Items → Option String
    item_ice_id nil = none
    item_ice_id (cons v vs) = elim (signal_ice_id v) [
      | some ice_id ↦ some ice_id
      | none ↦ item_ice_id vs
    ]

    pub data_ice_id : Fields → Option String
    data_ice_id end = none
    data_ice_id (field k v rest) = if str_eq k "data" then signal_ice_id v else data_ice_id rest

  -- `extractStreamerSignalTraceId`
  unfoldable mutual
    pub signal_trace_id : Json → Option String
    signal_trace_id (arr vs) = item_trace_id vs
    signal_trace_id (obj fields) =
        elim (safe_string (
          or_else (or_else (prop "ntes-trace-id" fields) (prop "trace_id" fields))
            (prop "traceId" fields))) [
              | some trace_id ↦ some trace_id
              | none ↦ data_trace_id fields
            ]
    signal_trace_id _ = none

    pub item_trace_id : Items → Option String
    item_trace_id nil = none
    item_trace_id (cons v vs) = elim (signal_trace_id v) [
      | some trace_id ↦ some trace_id
      | none ↦ item_trace_id vs
    ]

    pub data_trace_id : Fields → Option String
    data_trace_id end = none
    data_trace_id (field k v rest) =
        if str_eq k "data" then signal_trace_id v else data_trace_id rest

  -- `findControlResultPayload`, where it has a code.
  unfoldable mutual
    pub find_control_result : Json → Option (JsNumber × Option String)
    find_control_result (arr vs) = item_control_result vs
    find_control_result (obj fields) = elim (finite_of (prop "code" fields)) [
      | some code ↦ some (code, safe_string (or_else (prop "msg" fields) (prop "message" fields)))
      | none ↦ data_control_result fields
    ]
    find_control_result _ = none

    pub item_control_result : Items → Option (JsNumber × Option String)
    item_control_result nil = none
    item_control_result (cons v vs) = elim (find_control_result v) [
      | some r ↦ some r
      | none ↦ item_control_result vs
    ]

    pub data_control_result : Fields → Option (JsNumber × Option String)
    data_control_result end = none
    data_control_result (field k v rest) =
        if str_eq k "data" then find_control_result v else data_control_result rest
