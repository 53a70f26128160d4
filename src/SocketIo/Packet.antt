-- ===== src/SocketIo/Packet.antt =====
-- engine/src/core/socketio/socket_io.rs: Socket.IO packets and how they are written.
pub mod Decode
pub mod Prefix
pub mod Fields
pub mod RoundTrip
pub mod Events
pub mod Panics
mod Tests
use rpress.Common.{
  ℕ, ◌+◌, Bool, true, false, not, Option, none, some, List, [], ◌∷◌, ◌++◌, Str, codes, drop, length,
  ltb, ◌==◌, nat_eq, list_eq, if◌then◌else◌,
}
use rpress.Common.Options.{◌>>=◌}
use rpress.Common.Decimal.{decimal}
use rpress.SocketIo.Json.{Json, is_array}

pub data SioPacketType : Type 0 where
  connect_type disconnect_type event_type ack_type connect_error_type binary_event_type
        binary_ack_type :
      SioPacketType

-- The discriminants of the source.
unfoldable pub discriminant : SioPacketType → ℕ
discriminant connect_type = 0
discriminant disconnect_type = 1
discriminant event_type = 2
discriminant ack_type = 3
discriminant connect_error_type = 4
discriminant binary_event_type = 5
discriminant binary_ack_type = 6

unfoldable pub from_byte : ℕ → Option SioPacketType
from_byte b =
    if b == b'0'
    then some connect_type
    else if b == b'1'
    then some disconnect_type
    else if b == b'2'
    then some event_type
    else if b == b'3'
    then some ack_type
    else if b == b'4'
    then some connect_error_type
    else if b == b'5'
    then some binary_event_type
    else if b == b'6'
    then some binary_ack_type
    else none

unfoldable pub as_char : SioPacketType → ℕ
unfolding discriminant
as_char t = b'0' + discriminant t

-- `BinaryEvent | BinaryAck`
unfoldable pub is_binary : SioPacketType → Bool
is_binary binary_event_type = true
is_binary binary_ack_type = true
is_binary _ = false

pub record SioPacket (V : Type 0) : Type 0 where
  pub packet_type : SioPacketType
  pub namespace : Str
  pub content : Option V
  pub id : Option ℕ
  pub attachment_count : ℕ

unfoldable pub attachment_text : ℕ → Str
attachment_text n = if ltb 0 n then decimal n ++ b'-' ∷ [] else []

unfoldable pub namespace_text : Str → Str
namespace_text ns = if not (ns == codes "/") then ns ++ b',' ∷ [] else []

unfoldable pub id_text : Option ℕ → Str
id_text none = []
id_text (some n) = decimal n

unfoldable pub data_text : {V : Type 0} → Json V → Option V → Str
data_text json none = []
data_text json (some v) = json.to_string v

unfoldable pub encode : {V : Type 0} → Json V → SioPacket V → Str
unfolding as_char attachment_text namespace_text id_text data_text
encode json p =
    as_char p.packet_type
    ∷ (attachment_text p.attachment_count
        ++ (namespace_text p.namespace ++ (id_text p.id ++ data_text json p.content)))

unfoldable pub connect : {V : Type 0} → Str → Option V → SioPacket V
connect namespace content = record {
  packet_type = connect_type;
  namespace = namespace;
  content = content;
  id = none;
  attachment_count = 0;
}

unfoldable pub connect_ok : {V : Type 0} → Json V → Str → Str → SioPacket V
connect_ok json namespace sid = record {
  packet_type = connect_type;
  namespace = namespace;
  content = some (json.object ((codes "sid", json.string sid) ∷ []));
  id = none;
  attachment_count = 0;
}

unfoldable pub connect_error : {V : Type 0} → Json V → Str → Str → SioPacket V
connect_error json namespace message = record {
  packet_type = connect_error_type;
  namespace = namespace;
  content = some (json.object ((codes "message", json.string message) ∷ []));
  id = none;
  attachment_count = 0;
}

unfoldable pub disconnect : {V : Type 0} → Str → SioPacket V
disconnect namespace = record {
  packet_type = disconnect_type;
  namespace = namespace;
  content = none;
  id = none;
  attachment_count = 0;
}

-- An array is taken for the list of the arguments.
unfoldable pub arguments : {V : Type 0} → Json V → V → List V
arguments json v = elim (json.as_array v) [ none ↦ v ∷ [] | some items ↦ items ]

unfoldable pub event : {V : Type 0} → Json V → Str → Str → V → Option ℕ → SioPacket V
unfolding arguments
event json namespace name content ack_id = record {
  packet_type = event_type;
  namespace = namespace;
  content = some (json.array (json.string name ∷ arguments json content));
  id = ack_id;
  attachment_count = 0;
}

unfoldable pub ack : {V : Type 0} → Json V → Str → ℕ → V → SioPacket V
unfolding is_array
ack json namespace id content = record {
  packet_type = ack_type;
  namespace = namespace;
  content = some (if is_array json content then content else json.array (content ∷ []));
  id = some id;
  attachment_count = 0;
}

unfoldable pub first : {V : Type 0} → List V → Option V
first [] = none
first (v ∷ vs) = some v

unfoldable pub event_name : {V : Type 0} → Json V → SioPacket V → Option Str
unfolding first
event_name json p = do v ← p.content; arr ← json.as_array v; head ← first arr; json.as_str head

unfoldable pub event_data : {V : Type 0} → Json V → SioPacket V → Option (List V)
event_data json p = do
  v ← p.content
  arr ← json.as_array v
  some (if ltb 1 (length arr) then drop 1 arr else [])
