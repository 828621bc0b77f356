-- ===== src/PacketText/ReadBack.antt =====
-- A packet that is written is read back.
use uurc_web_new.Prelude.{
  ℕ, ◌+◌, ◌-◌, ◌≤◌, subst, ◌≡◌, ◌≢◌, ◌⊎◌, inl, inr, refl, sym, ap, ◌∙◌, true, false, Option, none,
  some, List, [], ◌∷◌, ◌++◌, All, append_assoc, arith, ==_iff, ne→==-false, le→leb, lt→ltb, Outcome,
  ok, ◌>>=◌,
}
use uurc_web_new.Json.{Json}
use uurc_web_new.Control.Decode.{is_digit, digits_value}
use uurc_web_new.PacketText.{
  JsonText, Packet, slash, comma, hyphen, default_namespace, decimal, decimal_loop, span_digits,
  span_namespace, has_attachments, attachments_of, read_attachments, read_namespace, id_of, data_of,
  read_rest, read_body, parse_packet, id_text, data_text, attachments_text, namespace_text,
  encode_packet, max_safe_integer, number_text,
}
use uurc_web_new.PacketText.Decimal.{
  digits_value-decimal, decimal-digits, StartsNoDigit, span_digits-append, decimal-nonempty,
}

abbrev pub IsNamespace : List ℕ → Type 0
IsNamespace [] = ⊥
IsNamespace (c ∷ cs) = (c ≡ slash) × All (λ d. d ≢ comma) cs

-- JSON text that begins neither with a digit nor with a slash, as that of an array or an object.
abbrev pub StartsValue : List ℕ → Type 0
StartsValue [] = ⊥
StartsValue (c ∷ cs) = (is_digit c ≡ false) × (c ≢ slash)

module _ (json : JsonText) where
  -- A safe integer, and the number that its digits are rounded to.
  abbrev pub IsExactId : Option ℕ → Type 0
  IsExactId none = Unit {0}
  IsExactId (some n) = (n ≤ max_safe_integer) × (json.to_double n ≡ n)

  abbrev pub IsReadable : Option Json → Type 0
  IsReadable none = Unit {0}
  IsReadable (some v) = (json.parse (json.stringify v) ≡ ok v) × StartsValue (json.stringify v)

  pub record IsPacket (p : Packet) : Type 0 where
    pub type_digit : p.packet_type ≤ 9
    pub attached :
        ((has_attachments p.packet_type ≡ true) × (p.attachments ≤ 10))
        ⊎ ((has_attachments p.packet_type ≡ false) × (p.attachments ≡ 0))
    pub named : IsNamespace p.namespace
    pub exact : IsExactId p.packet_id
    pub readable : IsReadable p.packet_data

  data_text-StartsNoDigit : (o : Option Json) → IsReadable o → StartsNoDigit (data_text json o)
  data_text-StartsNoDigit none r = tt
  data_text-StartsNoDigit (some v) r = starts (json.stringify v) r.1
    where
      starts : (text : List ℕ) → StartsValue text → StartsNoDigit text
      starts [] s = tt
      starts (c ∷ cs) s = s.0

  data_of-parse :
      (text : List ℕ) (v : Json)
      → json.parse text ≡ ok v
      → StartsValue text
      → data_of json text ≡ ok (some v)
  data_of-parse [] v e s = elim s [ ]
  data_of-parse (c ∷ cs) v e s = ap (λ o. o >>= λ u. ok (some u)) e

  data_of-data_text : (o : Option Json) → IsReadable o → data_of json (data_text json o) ≡ ok o
  data_of-data_text none r = refl
  data_of-data_text (some v) r = data_of-parse (json.stringify v) v r.0 r.1

  id_of-digits : (ds : List ℕ) → ds ≢ [] → id_of json ds ≡ some (json.to_double (digits_value 0 ds))
  id_of-digits [] ne = elim (ne refl) [ ]
  id_of-digits (d ∷ ds) ne = refl

  number_text-decimal : (n : ℕ) → n ≤ max_safe_integer → number_text json n ≡ decimal n
  number_text-decimal n le = rw (le→leb n max_safe_integer le) refl

  id_of-id_text : (o : Option ℕ) → IsExactId o → id_of json (id_text json o) ≡ o
  id_of-id_text none e = refl
  id_of-id_text (some n) e =
      ap (id_of json) (number_text-decimal n e.0)
      ∙ id_of-digits (decimal n) (decimal-nonempty n)
      ∙ ap (λ m. some (json.to_double m)) (digits_value-decimal n)
      ∙ ap some e.1

  id_text-digits : (o : Option ℕ) → IsExactId o → All (λ c. is_digit c ≡ true) (id_text json o)
  id_text-digits none e = tt
  id_text-digits (some n) e =
      subst (All (λ c. is_digit c ≡ true)) (sym (number_text-decimal n e.0)) (decimal-digits n)

attachments_of-digits :
    (ds rest : List ℕ) (n : ℕ)
    → ds ≢ []
    → digits_value 0 ds ≡ n
    → n ≤ 10
    → attachments_of ds (hyphen ∷ rest) ≡ ok (n, rest)
attachments_of-digits [] rest n ne e le = elim (ne refl) [ ]
attachments_of-digits (d ∷ ds) rest n ne e le = rw e (rw (le→leb n 10 le) refl)

read_attachments-text :
    (json : JsonText) (type n : ℕ) (rest : List ℕ)
    → ((has_attachments type ≡ true) × (n ≤ 10)) ⊎ ((has_attachments type ≡ false) × (n ≡ 0))
    → read_attachments type (attachments_text json type n ++ rest) ≡ ok (n, rest)
unfolding read_attachments
read_attachments-text json type n rest (inl (has, le)) =
    let spanned =
      ap (λ digits. span_digits ((digits ++ hyphen ∷ []) ++ rest))
        (number_text-decimal json n (omega (arith, le)))
      ∙ ap span_digits (append_assoc (decimal n) (hyphen ∷ []) rest)
      ∙ span_digits-append (decimal n) (hyphen ∷ rest) (decimal-digits n) refl in
    rw has (
      ap (λ p. attachments_of p.0 p.1) spanned
      ∙ attachments_of-digits (decimal n) rest n (decimal-nonempty n) (digits_value-decimal n) le)
read_attachments-text json type n rest (inr (has_none, zero')) =
    rw has_none (ap (λ m. ok (m, rest)) (sym zero'))

span_namespace-append :
    (cs rest : List ℕ) → All (λ d. d ≢ comma) cs → span_namespace (cs ++ comma ∷ rest) ≡ (cs, rest)
unfolding span_namespace
span_namespace-append [] rest all = refl
span_namespace-append (c ∷ cs) rest all =
    rw (ne→==-false c comma all.0) (ap (λ p. (c ∷ p.0, p.1)) (span_namespace-append cs rest all.1))

decimal-digit : (n : ℕ) → n ≤ 9 → decimal n ≡ (48 + n) ∷ []
unfolding decimal_loop
decimal-digit n le = rw (lt→ltb n 10 (omega (arith, le))) refl

-- What follows the namespace does not begin with a slash.
abbrev StartsNoSlash : List ℕ → Type 0
StartsNoSlash [] = Unit {0}
StartsNoSlash (c ∷ cs) = c ≢ slash

digits-StartsNoSlash :
    (ds rest : List ℕ)
    → All (λ c. is_digit c ≡ true) ds
    → StartsNoSlash rest
    → StartsNoSlash (ds ++ rest)
digits-StartsNoSlash [] rest all s = s
digits-StartsNoSlash (d ∷ ds) rest all s = λ e. ground (arith, all.0, e)

value-StartsNoSlash : (text : List ℕ) → StartsValue text → StartsNoSlash text
value-StartsNoSlash [] s = tt
value-StartsNoSlash (c ∷ cs) s = s.1

read_namespace-default :
    (text : List ℕ) → StartsNoSlash text → read_namespace text ≡ (default_namespace, text)
unfolding read_namespace
read_namespace-default [] s = refl
read_namespace-default (c ∷ cs) s = rw (ne→==-false c slash s) refl

read_namespace-text :
    (ns rest : List ℕ)
    → IsNamespace ns
    → StartsNoSlash rest
    → read_namespace (namespace_text ns ++ rest) ≡ (ns, rest)
unfolding read_namespace
read_namespace-text [] rest n s = elim n [ ]
read_namespace-text (c ∷ []) rest n s =
    rw ((==_iff c slash).1 n.0) (read_namespace-default rest s ∙ ap (λ d. (d ∷ [], rest)) (sym n.0))
read_namespace-text (c ∷ d ∷ cs) rest n s = rw ((==_iff c slash).1 n.0) (
    ap span_namespace (append_assoc (c ∷ d ∷ cs) (comma ∷ []) rest)
    ∙ span_namespace-append (c ∷ d ∷ cs) rest ((λ e. omega (arith, n.0, e)), n.1))

module _ (json : JsonText) where
  data_text-StartsNoSlash : (o : Option Json) → IsReadable json o → StartsNoSlash (data_text json o)
  data_text-StartsNoSlash none r = tt
  data_text-StartsNoSlash (some v) r = value-StartsNoSlash (json.stringify v) r.1

  abbrev finish : Packet → Option ℕ → Outcome (Option Json) → Outcome Packet
  finish p id o = o >>= λ payload. ok (record p { packet_id = id; packet_data = payload })

  read_rest-text :
      (p : Packet)
      → IsPacket json p
      → read_rest json p.packet_type p.attachments
          (p.namespace, id_text json p.packet_id ++ data_text json p.packet_data)
        ≡ ok p
  unfolding read_rest
  read_rest-text p h =
      let spanned =
        span_digits-append (id_text json p.packet_id) (data_text json p.packet_data)
          (id_text-digits json p.packet_id h.exact)
          (data_text-StartsNoDigit json p.packet_data h.readable) in
      ap (λ q. finish p (id_of json q.0) (data_of json q.1)) spanned
      ∙ ap (finish p (id_of json (id_text json p.packet_id)))
          (data_of-data_text json p.packet_data h.readable)
      ∙ ap (λ i. finish p i (ok p.packet_data)) (id_of-id_text json p.packet_id h.exact)

  -- A packet's text is parsed to the packet, for a type of one digit, at most ten attachments in a
  -- binary packet and none in another, a namespace that begins with a slash and has no comma, an
  -- identifier that is a safe integer and is left as it is by the rounding to a double, and data
  -- whose JSON text is parsed to the data and begins neither with a digit nor with a slash.
  pub parse_packet-encode_packet :
      (p : Packet) → IsPacket json p → parse_packet json (encode_packet json p) ≡ ok p
  unfolding parse_packet encode_packet
  parse_packet-encode_packet p h =
      let type = p.packet_type in
      let tail = id_text json p.packet_id ++ data_text json p.packet_data in
      let body = namespace_text p.namespace ++ tail in
      let all = attachments_text json type p.attachments ++ body in
      let no_slash =
        digits-StartsNoSlash (id_text json p.packet_id) (data_text json p.packet_data)
          (id_text-digits json p.packet_id h.exact)
          (data_text-StartsNoSlash p.packet_data h.readable) in
      let digit : is_digit (48 + type) ≡ true = ground (arith, h.type_digit) in
      let back : 48 + type - 48 ≡ type = omega arith in
      ap (λ l. parse_packet json (l ++ all))
        (number_text-decimal json type (omega (arith, h.type_digit))
          ∙ decimal-digit type h.type_digit)
      ∙ rw digit (ap (λ u. read_attachments u all >>= read_body json u) back)
      ∙ ap (λ o. o >>= read_body json type)
          (read_attachments-text json type p.attachments body h.attached)
      ∙ ap (read_rest json type p.attachments)
          (read_namespace-text p.namespace tail h.named no_slash)
      ∙ read_rest-text p h
