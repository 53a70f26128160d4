-- ===== src/SocketIo/Packet/RoundTrip.antt =====
-- Socket.IO packets that are written and read.
use rpress.Common.{
  ℕ, ◌<◌, true, false, Option, none, some, List, [], ◌∷◌, ◌++◌, append-nil, append_assoc, Str,
  codes, length, length-append, ltb, ◌==◌, nat_eq, list_eq, is_empty, All, ◌≡◌, refl, sym, ap, ◌∙◌,
  inl, inr, Bool-cases, arith,
}
use rpress.Common.Decimal.{is_digit, decimal, All-decimal, is_empty-decimal}
use rpress.Common.Utf8.{IsAscii}
use rpress.SocketIo.Json.{Json}
use rpress.SocketIo.Packet.{
  SioPacketType, from_byte, as_char, is_binary, SioPacket, attachment_text, namespace_text, id_text,
  data_text, encode, connect_type,
}
use rpress.SocketIo.Packet.Decode.{
  decoded, is_first_byte, chars, next_holds, is_char, ends_id, or_zero, attachments_at,
  namespace_at, id_at, data_at, decode_from, decoded_or_panicked, decode,
}
use rpress.SocketIo.Packet.Prefix.{chars-append, IsAscii-append, slice-end}
use rpress.SocketIo.Packet.Fields.{
  is_digit-IsAscii, u64_limit, begins_json, IsNamespace, id_at-id_text, namespace_at-namespace_text,
  attachments_at-attachment_text,
}

pub from_byte-as_char : (t : SioPacketType) → from_byte (as_char t) ≡ some t
unfolding from_byte as_char
from_byte-as_char connect_type = refl
from_byte-as_char _ = refl

data_at-nil :
    {V : Type 0} (json : Json V) (s : Str) → IsAscii s → data_at json s (length s) ≡ some none
unfolding data_at
data_at-nil json s hs =
    let whole : chars s ≡ s = ap chars (sym (append-nil s)) ∙ chars-append s [] hs ∙ no_chars s in
    let over : ltb (length s) (length (chars s)) ≡ false =
      ap (λ t. ltb (length s) (length t)) whole ∙ ground arith in
    rw over refl
  where
    no_chars : (s : Str) → s ++ chars [] ≡ s
    no_chars s = append-nil s

chars-json :
    (s d : Str)
    → IsAscii s
    → ends_id d ≡ true
    → is_empty d ≡ false
    → ltb (length s) (length (chars (s ++ d))) ≡ true
unfolding chars ends_id is_first_byte
chars-json s [] hs hd some_text = absurd (ground (arith, some_text))
chars-json s (c ∷ d) hs hd some_text =
    let first : is_first_byte c ≡ true = ground (arith, hd) in
    rw (chars-append s (c ∷ d) hs, first) (ground (arith, length-append s (c ∷ chars d)))

data_at-text :
    {V : Type 0} (json : Json V) (s d : Str)
    → IsAscii s
    → ends_id d ≡ true
    → is_empty d ≡ false
    → data_at json (s ++ d) (length s) ≡ some (json.from_str d)
unfolding data_at
data_at-text json s d hs hd some_text =
    let (first, _, _, _) = begins_json d hd in
    rw (chars-json s d hs hd some_text, slice-end s d first) refl

-- A value that is written as an array or as an object, and read back.
pub record IsText {V : Type 0} (json : Json V) (v : V) : Type 0 where
  pub begins : ends_id (json.to_string v) ≡ true
  pub not_empty : is_empty (json.to_string v) ≡ false
  pub from_str-to_string : json.from_str (json.to_string v) ≡ some v

abbrev pub IsContent : {V : Type 0} → Json V → Option V → Type 0
IsContent json none = Unit
IsContent json (some v) = IsText json v

data_at-data_text :
    {V : Type 0} (json : Json V) (s : Str) (content : Option V)
    → IsAscii s
    → IsContent json content
    → data_at json (s ++ data_text json content) (length s) ≡ some content
unfolding data_text
data_at-data_text json s none hs h =
    ap (λ t. data_at json t (length s)) (append-nil s) ∙ data_at-nil json s hs
data_at-data_text json s (some v) hs h =
    data_at-text json s (json.to_string v) hs h.begins h.not_empty ∙ ap some h.from_str-to_string

ends_id-data_text :
    {V : Type 0} (json : Json V) (content : Option V)
    → IsContent json content
    → ends_id (data_text json content) ≡ true
unfolding data_text ends_id
ends_id-data_text json none h = refl
ends_id-data_text json (some v) h = h.begins

next-digits :
    (s : Str)
    → All (λ c. is_digit c ≡ true) s
    → is_empty s ≡ false
    → (r : List ℕ) → next_holds (is_char b'/') (s ++ r) ≡ false
unfolding next_holds
next-digits [] digits e r = absurd (ground (arith, e))
next-digits (c ∷ s) (digit, _) e r = ground (arith, digit)

-- Behind the namespace stands no slash.
no_slash :
    (id : Option ℕ) (d : Str)
    → ends_id d ≡ true
    → next_holds (is_char b'/') (chars (id_text id ++ d)) ≡ false
unfolding id_text
no_slash none d hd = let (_, _, _, slash) = begins_json d hd in slash
no_slash (some n) d hd =
    ap (next_holds (is_char b'/'))
      (chars-append (decimal n) d (is_digit-IsAscii (decimal n) (All-decimal n)))
    ∙ next-digits (decimal n) (All-decimal n) (is_empty-decimal n) (chars d)

-- A packet that the format can carry.
pub record IsEncodable {V : Type 0} (json : Json V) (p : SioPacket V) : Type 0 where
  pub attachments : is_binary p.packet_type ≡ ltb 0 p.attachment_count
  pub attachments_fit : p.attachment_count < u64_limit
  pub namespace : IsNamespace p.namespace
  pub id_fits : or_zero p.id < u64_limit
  pub content : IsContent json p.content

IsAscii-id_text : (id : Option ℕ) → IsAscii (id_text id)
unfolding id_text
IsAscii-id_text none = tt
IsAscii-id_text (some n) = is_digit-IsAscii (decimal n) (All-decimal n)

IsAscii-namespace_text : (ns : Str) → IsNamespace ns → IsAscii (namespace_text ns)
unfolding namespace_text
IsAscii-namespace_text ns h = elim (Bool-cases (ns == codes "/")) [
  | inl root ↦ rw root tt
  | inr other ↦ rw other (IsAscii-append ns (b',' ∷ []) h.ascii (refl, tt))
]

IsAscii-attachment_text : (n : ℕ) → IsAscii (attachment_text n)
unfolding attachment_text
IsAscii-attachment_text n = elim (Bool-cases (ltb 0 n)) [
  | inl some_attachments ↦ rw some_attachments (
      IsAscii-append (decimal n) (b'-' ∷ []) (is_digit-IsAscii (decimal n) (All-decimal n))
        (refl, tt))
  | inr no_attachments ↦ rw no_attachments tt
]

pub as_char-IsAscii : (t : SioPacketType) → ltb (as_char t) 0x80 ≡ true
unfolding as_char
as_char-IsAscii connect_type = refl
as_char-IsAscii _ = refl

decode_from-encode :
    {V : Type 0} (json : Json V) (p : SioPacket V)
    → IsEncodable json p
    → decode_from json (encode json p) p.packet_type ≡ some p
unfolding decode_from encode
decode_from-encode json p h =
    let t = as_char p.packet_type in
    let a = attachment_text p.attachment_count in
    let n = namespace_text p.namespace in
    let i = id_text p.id in
    let d = data_text json p.content in
    let hd = ends_id-data_text json p.content h.content in
    let hs : IsAscii (t ∷ a) =
      (as_char-IsAscii p.packet_type, IsAscii-attachment_text p.attachment_count) in
    let hn = IsAscii-append (t ∷ a) n hs (IsAscii-namespace_text p.namespace h.namespace) in
    let hi = IsAscii-append (t ∷ (a ++ n)) i hn (IsAscii-id_text p.id) in
    let e3 = append_assoc a n (i ++ d) in
    let e4 = append_assoc (a ++ n) i d ∙ e3 in
    let first : attachments_at (t ∷ (a ++ (n ++ (i ++ d)))) p.packet_type 1
        ≡ some (p.attachment_count, length (t ∷ a)) =
      attachments_at-attachment_text (t ∷ []) (n ++ (i ++ d)) p.packet_type p.attachment_count
        (hs.0, tt) h.attachments h.attachments_fit in
    let second : namespace_at (t ∷ (a ++ (n ++ (i ++ d)))) (length (t ∷ a))
        ≡ some (p.namespace, length (t ∷ (a ++ n))) =
      namespace_at-namespace_text (t ∷ a) p.namespace (i ++ d) hs h.namespace
        (no_slash p.id d hd) in
    let third : id_at (t ∷ (a ++ (n ++ (i ++ d)))) (length (t ∷ (a ++ n)))
        ≡ some (p.id, length (t ∷ ((a ++ n) ++ i))) =
      ap (λ u. id_at (t ∷ u) (length (t ∷ (a ++ n)))) (sym e3)
      ∙ id_at-id_text (t ∷ (a ++ n)) d p.id hn hd h.id_fits in
    let fourth : data_at json (t ∷ (a ++ (n ++ (i ++ d)))) (length (t ∷ ((a ++ n) ++ i)))
        ≡ some p.content =
      ap (λ u. data_at json (t ∷ u) (length (t ∷ ((a ++ n) ++ i)))) (sym e4)
      ∙ data_at-data_text json (t ∷ ((a ++ n) ++ i)) p.content hi h.content in
    rw (first, second, third, fourth) refl

-- A packet is read as it was written, if it is binary just when it has attachments, its namespace
-- is ASCII, starts with a slash and holds no comma, its numbers fit 64 bits, and its data, where it
-- has some, is written as an array or an object that `serde_json` reads back.
pub decode-encode_packet :
    {V : Type 0} (json : Json V) (p : SioPacket V)
    → IsEncodable json p
    → decode json (encode json p) ≡ decoded p
unfolding decode encode
decode-encode_packet json p h =
    rw (from_byte-as_char p.packet_type, decode)
      (ap decoded_or_panicked (decode_from-encode json p h))
