-- ===== src/PacketText.antt =====
-- cloudflare/src/signal/socketIoWire.ts: the texts of Socket.IO packets. A text is the list of its code
-- units. `JSON.parse`, `JSON.stringify`, the rounding of a large integer to a double and the text of an
-- integer that is not safe are parameters.
pub mod Decimal
pub mod ReadBack
pub mod Tests
use uurc_web_new.Prelude.{
  ℕ, zero, suc, ◌+◌, ◌-◌, ◌*◌, ◌/◌, ◌%◌, Bool, true, false, ◌&&◌, ◌||◌, not, Option, none, some,
  List, [], ◌∷◌, ◌++◌, ltb, leb, if◌then◌else◌, ◌==◌, Outcome, ok, throw, plain_error, ◌>>=◌,
}
use uurc_web_new.Json.{Json}
use uurc_web_new.Control.Decode.{is_digit, digits_value}

pub record JsonText : Type 0 where
  pub parse : List ℕ → Outcome Json
  pub stringify : Json → List ℕ
  pub to_double : ℕ → ℕ
  pub large_text : ℕ → List ℕ

-- `SocketIoPacket`
pub record Packet : Type 0 where
  pub packet_type : ℕ
  pub namespace : List ℕ
  pub attachments : ℕ
  pub packet_id : Option ℕ
  pub packet_data : Option Json

-- `/`, `,` and `-`
abbrev pub slash : ℕ
slash = 47

abbrev pub comma : ℕ
comma = 44

abbrev pub hyphen : ℕ
hyphen = 45

-- `SOCKET_IO_NAMESPACE`
abbrev pub default_namespace : List ℕ
default_namespace = slash ∷ []

-- The digits of `String(n)` for a safe integer: the fuel is more than their number.
unfoldable pub decimal_loop : ℕ → ℕ → List ℕ
decimal_loop zero n = []
decimal_loop (suc fuel) n =
    let rest = decimal_loop fuel (n / 10) in
    if ltb n 10 then (48 + n) ∷ [] else rest ++ (48 + n % 10) ∷ []

abbrev pub max_safe_integer : ℕ
max_safe_integer = 9007199254740991

abbrev pub decimal : ℕ → List ℕ
decimal n = decimal_loop (suc n) n

-- `while (isDigit(value[offset])) offset += 1`: the digits, and what follows.
unfoldable pub span_digits : List ℕ → List ℕ × List ℕ
span_digits [] = ([], [])
span_digits (c ∷ cs) =
    let rest = span_digits cs in if is_digit c then (c ∷ rest.0, rest.1) else ([], c ∷ cs)

-- Up to a comma, and what follows the comma.
unfoldable pub span_namespace : List ℕ → List ℕ × List ℕ
span_namespace [] = ([], [])
span_namespace (c ∷ cs) =
    let rest = span_namespace cs in if c == comma then ([], cs) else (c ∷ rest.0, rest.1)

abbrev pub has_attachments : ℕ → Bool
has_attachments type = type == 5 || type == 6

-- The count of attachments from its digits, and the text behind its hyphen.
abbrev pub attachments_of : List ℕ → List ℕ → Outcome (ℕ × List ℕ)
attachments_of [] rest = throw plain_error
attachments_of (d ∷ digits) [] = throw plain_error
attachments_of (d ∷ digits) (c ∷ rest) =
    if leb (digits_value 0 (d ∷ digits)) 10 && c == hyphen
    then ok (digits_value 0 (d ∷ digits), rest)
    else throw plain_error

unfoldable pub read_attachments : ℕ → List ℕ → Outcome (ℕ × List ℕ)
read_attachments type text =
    if has_attachments type
    then attachments_of (span_digits text).0 (span_digits text).1
    else ok (0, text)

unfoldable pub read_namespace : List ℕ → List ℕ × List ℕ
read_namespace [] = (default_namespace, [])
read_namespace (c ∷ cs) =
    if c == slash then span_namespace (c ∷ cs) else (default_namespace, c ∷ cs)

-- `packet.namespace && packet.namespace !== SOCKET_IO_NAMESPACE`
abbrev pub namespace_text : List ℕ → List ℕ
namespace_text [] = []
namespace_text (c ∷ []) = if c == slash then [] else c ∷ comma ∷ []
namespace_text (c ∷ d ∷ cs) = (c ∷ d ∷ cs) ++ comma ∷ []

module _ (json : JsonText) where
  -- `String(n)`. From 10^21 on it has an exponent, and above 2^53 digits that are rounded.
  abbrev pub number_text : ℕ → List ℕ
  number_text n = if leb n max_safe_integer then decimal n else json.large_text n

  abbrev pub id_text : Option ℕ → List ℕ
  id_text none = []
  id_text (some n) = number_text n

  abbrev pub attachments_text : ℕ → ℕ → List ℕ
  attachments_text type n = if has_attachments type then number_text n ++ hyphen ∷ [] else []

  abbrev pub id_of : List ℕ → Option ℕ
  id_of [] = none
  id_of (d ∷ digits) = some (json.to_double (digits_value 0 (d ∷ digits)))

  abbrev pub data_of : List ℕ → Outcome (Option Json)
  data_of [] = ok none
  data_of (c ∷ cs) = json.parse (c ∷ cs) >>= λ v. ok (some v)

  -- The part behind the namespace.
  unfoldable pub read_rest : ℕ → ℕ → List ℕ × List ℕ → Outcome Packet
  read_rest type attachments (namespace, text) = data_of (span_digits text).1 >>= λ payload.
      ok (record {
        packet_type = type;
        namespace = namespace;
        attachments = attachments;
        packet_id = id_of (span_digits text).0;
        packet_data = payload;
      })

  abbrev pub read_body : ℕ → ℕ × List ℕ → Outcome Packet
  read_body type (attachments, text) = read_rest type attachments (read_namespace text)

  -- `parseSocketIoPacket`
  unfoldable pub parse_packet : List ℕ → Outcome Packet
  parse_packet [] = throw plain_error
  parse_packet (c ∷ cs) =
      if is_digit c then read_attachments (c - 48) cs >>= read_body (c - 48) else throw plain_error

  abbrev pub data_text : Option Json → List ℕ
  data_text none = []
  data_text (some v) = json.stringify v

  -- `encodeSocketIoPacket`
  unfoldable pub encode_packet : Packet → List ℕ
  encode_packet packet =
      number_text packet.packet_type
      ++ (attachments_text packet.packet_type packet.attachments
          ++ (namespace_text packet.namespace
              ++ (id_text packet.packet_id ++ data_text packet.packet_data)))
