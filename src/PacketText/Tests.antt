-- ===== src/PacketText/Tests.antt =====
-- `51-/a,12[]`: a packet with an attachment, a namespace, an identifier and an empty array.
use uurc_web_new.Prelude.{
  ℕ, ◌≡◌, refl, inl, ◌&&◌, some, List, [], ◌∷◌, Outcome, ok, throw, plain_error, arith, ◌==◌,
  if◌then◌else◌,
}
use uurc_web_new.Json.{Json, arr, nil}
use uurc_web_new.PacketText.{
  JsonText, Packet, parse_packet, encode_packet, decimal_loop, span_digits, read_attachments,
}
use uurc_web_new.PacketText.ReadBack.{parse_packet-encode_packet}

-- The JSON of the empty array alone.
abbrev parse_empty : List ℕ → Outcome Json
parse_empty (a ∷ b ∷ []) = if a == 91 && b == 93 then ok (arr nil) else throw plain_error
parse_empty _ = throw plain_error

abbrev json : JsonText
json = record {
  parse = parse_empty;
  stringify = λ value. 91 ∷ 93 ∷ [];
  to_double = λ n. n;
  large_text = λ n. [];
}

abbrev packet : Packet
packet = record {
  packet_type = 5;
  namespace = 47 ∷ 97 ∷ [];
  attachments = 1;
  packet_id = some 12;
  packet_data = some (arr nil);
}

encoded : encode_packet json packet ≡ 53 ∷ 49 ∷ 45 ∷ 47 ∷ 97 ∷ 44 ∷ 49 ∷ 50 ∷ 91 ∷ 93 ∷ []
unfolding encode_packet decimal_loop
encoded = refl

too_many : parse_packet json (53 ∷ 49 ∷ 49 ∷ 45 ∷ []) ≡ throw plain_error
unfolding parse_packet read_attachments span_digits
too_many = refl

parse_packet-encode_packet_example : parse_packet json (encode_packet json packet) ≡ ok packet
parse_packet-encode_packet_example = parse_packet-encode_packet json packet (record {
  type_digit = omega arith;
  attached = inl (refl, omega arith);
  named = (refl, ((λ e. omega (arith, e)), tt));
  exact = (omega arith, refl);
  readable = (refl, (refl, λ e. omega (arith, e)));
})
