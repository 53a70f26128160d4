-- ===== src/SocketIo/Redis.antt =====
-- engine/src/core/socketio/redis_adapter.rs: the adapter that passes broadcasts on to other nodes.
-- Redis and the JSON of a message are outside of the program: a broadcast gives the payload that is
-- published beside the sends to the sockets of its own node, and a node is given each payload that
-- comes in on its subscription.
pub mod Cluster
pub mod Tests
use rpress.Common.{
  ℕ, ◌+◌, ◌%◌, Option, none, some, List, [], ◌∷◌, ◌++◌, Str, codes, unwrap_or, ◌==◌, nat_eq,
  list_eq, if◌then◌else◌,
}
use rpress.SocketIo.EngineIo.{
  EioPacket, EioPacketType, message, discriminant, from_byte, new_packet,
}
use rpress.SocketIo.Rooms
use rpress.SocketIo.Rooms.{RoomManager}

pub record BroadcastMessage : Type 0 where
  pub node_id : Str
  pub namespace : Str
  pub rooms : Option (List Str)
  pub packet_type : ℕ
  pub packet_data : Option Str
  pub exclude : Option Str

-- `serde_json::to_string` and `serde_json::from_str` at `BroadcastMessage`
pub record Codec : Type 0 where
  pub to_string : BroadcastMessage → Str
  pub from_str : Str → Option BroadcastMessage

pub record RedisAdapter (T : Type 0) : Type 0 where
  pub local : RoomManager T
  pub node_id : Str

abbrev pub channel_prefix : Str
channel_prefix = codes "rpress:sio"

unfoldable pub message_of :
    {T : Type 0}
    → RedisAdapter T
    → Str
    → Option (List Str)
    → EioPacket
    → Option Str
    → BroadcastMessage
unfolding discriminant
message_of node namespace rooms packet exclude = record {
  node_id = node.node_id;
  namespace = namespace;
  rooms = rooms;
  packet_type = discriminant packet.packet_type;
  packet_data = packet.content;
  exclude = exclude;
}

-- The channel and the payload of a message.
unfoldable pub publish_broadcast :
    {T : Type 0}
    → Codec
    → RedisAdapter T
    → Str
    → Option (List Str)
    → EioPacket
    → Option Str
    → Str × Str
unfolding message_of
publish_broadcast codec node namespace rooms packet exclude = (
  channel_prefix ++ (b':' ∷ namespace),
  codec.to_string (message_of node namespace rooms packet exclude),
)

-- The packet of a message. The type and the digit are added as bytes, and wrap.
unfoldable pub received_packet : BroadcastMessage → EioPacket
unfolding from_byte new_packet
received_packet msg =
    new_packet (unwrap_or (from_byte ((msg.packet_type + b'0') % 256)) message) msg.packet_data

module _ {T : Type 0} where
  unfoldable pub new : Str → RedisAdapter T
  new node_id = record { local = Rooms.new; node_id = node_id }

  unfoldable pub register_sender : Str → T → RedisAdapter T → RedisAdapter T
  register_sender socket_id tx node = record node {
    local = Rooms.register_sender socket_id tx node.local;
  }

  unfoldable pub unregister_sender : Str → RedisAdapter T → RedisAdapter T
  unregister_sender socket_id node = record node {
    local = Rooms.unregister_sender socket_id node.local;
  }

  unfoldable pub join : Str → Str → Str → RedisAdapter T → RedisAdapter T
  join namespace room socket_id node = record node {
    local = Rooms.join namespace room socket_id node.local;
  }

  unfoldable pub leave : Str → Str → Str → RedisAdapter T → RedisAdapter T
  leave namespace room socket_id node = record node {
    local = Rooms.leave namespace room socket_id node.local;
  }

  unfoldable pub leave_all : Str → RedisAdapter T → RedisAdapter T
  leave_all socket_id node = record node { local = Rooms.leave_all socket_id node.local }

  unfoldable pub room_members : Str → Str → RedisAdapter T → List Str
  room_members namespace room node = Rooms.room_members namespace room node.local

  -- The sends of this node, and what is published.
  unfoldable pub broadcast_room :
      Codec
      → Str
      → Str
      → EioPacket
      → Option Str
      → RedisAdapter T
      → List (T × EioPacket) × (Str × Str)
  unfolding publish_broadcast
  broadcast_room codec namespace room packet exclude node = (
    Rooms.broadcast_room namespace room packet exclude node.local,
    publish_broadcast codec node namespace (some (room ∷ [])) packet exclude,
  )

  unfoldable pub broadcast_namespace :
      Codec → Str → EioPacket → Option Str → RedisAdapter T → List (T × EioPacket) × (Str × Str)
  unfolding publish_broadcast
  broadcast_namespace codec namespace packet exclude node = (
    Rooms.broadcast_namespace namespace packet exclude node.local,
    publish_broadcast codec node namespace none packet exclude,
  )

  unfoldable pub rooms_sends :
      BroadcastMessage → EioPacket → RoomManager T → List Str → List (T × EioPacket)
  rooms_sends msg packet local [] = []
  rooms_sends msg packet local (room ∷ rooms) =
      Rooms.broadcast_room msg.namespace room packet msg.exclude local
      ++ rooms_sends msg packet local rooms

  unfoldable pub message_sends :
      BroadcastMessage → Option (List Str) → EioPacket → RoomManager T → List (T × EioPacket)
  unfolding rooms_sends
  message_sends msg none packet local =
      Rooms.broadcast_namespace msg.namespace packet msg.exclude local
  message_sends msg (some rooms) packet local = rooms_sends msg packet local rooms

  -- One round of `run_subscriber`: what a payload makes the node send.
  unfoldable pub on_payload : Codec → Str → RedisAdapter T → List (T × EioPacket)
  unfolding received_packet message_sends
  on_payload codec payload node = elim (codec.from_str payload) [
    | none ↦ []
    | some msg ↦
        if msg.node_id == node.node_id
        then []
        else message_sends msg msg.rooms (received_packet msg) node.local
  ]
