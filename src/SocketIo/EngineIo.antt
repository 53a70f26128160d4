-- ===== src/SocketIo/EngineIo.antt =====
-- engine/src/core/socketio/engine_io.rs: Engine.IO packets.
pub mod RoundTrip
mod Tests
use rpress.Common.{
  ℕ, ◌+◌, ◌++◌, Option, none, some, List, [], ◌∷◌, map, Str, split, join, ◌==◌, nat_eq,
  if◌then◌else◌,
}

pub data EioPacketType : Type 0 where
  open_packet close ping pong message upgrade noop : EioPacketType

-- The discriminants of the source.
unfoldable pub discriminant : EioPacketType → ℕ
discriminant open_packet = 0
discriminant close = 1
discriminant ping = 2
discriminant pong = 3
discriminant message = 4
discriminant upgrade = 5
discriminant noop = 6

unfoldable pub from_byte : ℕ → Option EioPacketType
from_byte b =
    if b == b'0'
    then some open_packet
    else if b == b'1'
    then some close
    else if b == b'2'
    then some ping
    else if b == b'3'
    then some pong
    else if b == b'4'
    then some message
    else if b == b'5'
    then some upgrade
    else if b == b'6'
    then some noop
    else none

unfoldable pub as_char : EioPacketType → ℕ
unfolding discriminant
as_char t = b'0' + discriminant t

pub record EioPacket : Type 0 where
  pub packet_type : EioPacketType
  pub content : Option Str

unfoldable pub new_packet : EioPacketType → Option Str → EioPacket
new_packet t content = record { packet_type = t; content = content }

abbrev pub content_text : Option Str → Str
content_text none = []
content_text (some d) = d

unfoldable pub encode : EioPacket → Str
unfolding as_char
encode p = as_char p.packet_type ∷ content_text p.content

abbrev pub content_of : Str → Option Str
content_of [] = none
content_of (c ∷ s) = some (c ∷ s)

-- The first byte is a digit wherever the rest is sliced off, so the slice is at a boundary.
unfoldable pub decode : Str → Option EioPacket
decode [] = none
decode (b ∷ s) = elim (from_byte b) [
  | none ↦ none
  | some t ↦ some (record { packet_type = t; content = content_of s })
]

abbrev pub record_separator : ℕ
record_separator = 0x1e

unfoldable pub encode_polling_payload : List EioPacket → Str
unfolding encode
encode_polling_payload packets = join (record_separator ∷ []) (map encode packets)

unfoldable pub decode_all : List Str → List EioPacket
unfolding decode
decode_all [] = []
decode_all (s ∷ parts) = elim (decode s) [ none ↦ decode_all parts | some p ↦ p ∷ decode_all parts ]

unfoldable pub decode_polling_payload : Str → List EioPacket
unfolding decode_all
decode_polling_payload input = decode_all (split record_separator input)
