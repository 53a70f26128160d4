-- ===== src/SocketIo/EngineIo/RoundTrip.antt =====
-- Packets that are written and read.
use rpress.Common.{
  Option, none, some, List, [], ◌∷◌, map, Str, split, split-join, join, Lacks, All, ◌≡◌, ◌≢◌, refl,
  ap, ◌∙◌, arith,
}
use rpress.SocketIo.EngineIo.{
  EioPacketType, open_packet, from_byte, as_char, EioPacket, content_text, content_of, encode,
  decode, record_separator, encode_polling_payload, decode_all, decode_polling_payload,
}

pub from_byte-as_char : (t : EioPacketType) → from_byte (as_char t) ≡ some t
unfolding from_byte as_char
from_byte-as_char open_packet = refl
from_byte-as_char _ = refl

-- An empty content reads back as none.
abbrev no_empty : Option Str → Option Str
no_empty (some []) = none
no_empty c = c

unfoldable pub normal : EioPacket → EioPacket
normal p = record p { content = no_empty p.content }

-- A packet reads back as it was written, but for an empty content, which reads back as none.
pub decode-encode : (p : EioPacket) → decode (encode p) ≡ some (normal p)
unfolding decode encode normal
decode-encode p =
    rw (from_byte-as_char p.packet_type, decode)
      (ap (λ c. some (record p { content = c })) (content (p.content)))
  where
    content : (c : Option Str) → content_of (content_text c) ≡ no_empty c
    content none = refl
    content (some []) = refl
    content (some (c ∷ s)) = refl

abbrev pub HasNoSeparator : EioPacket → Type 0
HasNoSeparator p = Lacks record_separator (content_text p.content)

as_char-ne : (t : EioPacketType) → as_char t ≢ record_separator
unfolding as_char
as_char-ne open_packet = omega arith
as_char-ne _ = omega arith

encode-Lacks : (p : EioPacket) → HasNoSeparator p → Lacks record_separator (encode p)
unfolding encode
encode-Lacks p h = (as_char-ne p.packet_type, h)

All-encode-Lacks :
    (ps : List EioPacket) → All HasNoSeparator ps → All (Lacks record_separator) (map encode ps)
All-encode-Lacks [] h = tt
All-encode-Lacks (p ∷ ps) (h, hs) = (encode-Lacks p h, All-encode-Lacks ps hs)

decode_all-encode : (ps : List EioPacket) → decode_all (map encode ps) ≡ map normal ps
unfolding decode_all
decode_all-encode [] = refl
decode_all-encode (p ∷ ps) =
    rw (decode-encode p, decode_all) (ap (λ qs. normal p ∷ qs) (decode_all-encode ps))

-- A polling payload reads back as the packets that were written, in their order, if no content
-- holds the record separator.
pub decode-encode_polling_payload :
    (ps : List EioPacket)
    → All HasNoSeparator ps
    → decode_polling_payload (encode_polling_payload ps) ≡ map normal ps
unfolding decode_polling_payload encode_polling_payload
decode-encode_polling_payload [] h = unfold join split decode_all decode in refl
decode-encode_polling_payload (p ∷ ps) (h, hs) =
    ap decode_all (
      split-join record_separator (encode p) (map encode ps) (encode-Lacks p h)
        (All-encode-Lacks ps hs))
    ∙ decode_all-encode (p ∷ ps)
