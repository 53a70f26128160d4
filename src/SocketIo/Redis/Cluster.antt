-- ===== src/SocketIo/Redis/Cluster.antt =====
-- A broadcast in a cluster of nodes.
use rpress.Common.{
  ◌+◌, ◌%◌, false, Option, none, some, List, [], ◌∷◌, append-nil, Str, unwrap_or, ◌==◌, nat_eq,
  list_eq, eq_refl, if◌then◌else◌, ◌≡◌, refl, ap, ◌∙◌,
}
use rpress.SocketIo.EngineIo.{
  EioPacket, EioPacketType, message, open_packet, discriminant, from_byte, as_char, new_packet,
}
use rpress.SocketIo.EngineIo.RoundTrip.{from_byte-as_char}
use rpress.SocketIo.Rooms
use rpress.SocketIo.Redis.{
  BroadcastMessage, Codec, RedisAdapter, message_of, received_packet, broadcast_room,
  broadcast_namespace, rooms_sends, message_sends, on_payload, publish_broadcast,
}

-- What is documented of serde: a message that was written is read back.
pub record IsCodec (codec : Codec) : Type 0 where
  pub from_str-to_string :
      (msg : BroadcastMessage) → codec.from_str (codec.to_string msg) ≡ some msg

wrapped : (t : EioPacketType) → (discriminant t + b'0') % 256 ≡ as_char t
unfolding discriminant as_char
wrapped open_packet = refl
wrapped _ = refl

unwrapped : (t : EioPacketType) → unwrap_or (from_byte ((discriminant t + b'0') % 256)) message ≡ t
unwrapped t = ap (λ b. unwrap_or (from_byte b) message) (wrapped t) ∙ rw (from_byte-as_char t) refl

module _ {T : Type 0} (codec : Codec) where
  on_payload-read :
      (payload : Str) (msg : BroadcastMessage) (node : RedisAdapter T)
      → codec.from_str payload ≡ some msg
      → on_payload codec payload node ≡ (
          if msg.node_id == node.node_id
          then []
          else message_sends msg msg.rooms (received_packet msg) node.local)
  unfolding on_payload
  on_payload-read payload msg node read = rw (read, on_payload) refl

  received_packet-message_of :
      (node : RedisAdapter T) (namespace : Str) (rooms : Option (List Str)) (packet : EioPacket)
      (exclude : Option Str)
      → received_packet (message_of node namespace rooms packet exclude) ≡ packet
  unfolding received_packet message_of new_packet
  received_packet-message_of node namespace rooms packet exclude =
      ap (λ t. record packet { packet_type = t }) (unwrapped packet.packet_type)

  -- What is published makes no sends at its own node, and at another one those of the message.
  published :
      (node other : RedisAdapter T) (namespace : Str) (rooms : Option (List Str))
      (packet : EioPacket) (exclude : Option Str)
      → IsCodec codec
      → (node.node_id == other.node_id) ≡ false
      → let msg = message_of node namespace rooms packet exclude in
        (on_payload codec (codec.to_string msg) node ≡ [])
        × (on_payload codec (codec.to_string msg) other
            ≡ message_sends msg rooms packet other.local)
  unfolding message_of
  published node other namespace rooms packet exclude h distinct =
      let msg = message_of node namespace rooms packet exclude in
      let read = h.from_str-to_string msg in
      (
        on_payload-read (codec.to_string msg) msg node read ∙ rw (eq_refl node.node_id) refl,
        on_payload-read (codec.to_string msg) msg other read
            ∙ rw distinct (
                ap (λ p. message_sends msg rooms p other.local)
                  (received_packet-message_of node namespace rooms packet exclude)),
      )

  -- What a node publishes for a broadcast, to a room or to a namespace, makes every other node send
  -- to its own sockets what a broadcast of its own would send them, and makes the node itself send
  -- nothing again, if Redis hands the payload on and it is read as it was written.
  pub on_payload-broadcast :
      (node other : RedisAdapter T) (namespace room : Str) (packet : EioPacket)
      (exclude : Option Str)
      → IsCodec codec
      → (node.node_id == other.node_id) ≡ false
      → let to_room = (broadcast_room codec namespace room packet exclude node).1.1 in
        let to_all = (broadcast_namespace codec namespace packet exclude node).1.1 in
        (on_payload codec to_room node ≡ [])
        × (on_payload codec to_room other
            ≡ Rooms.broadcast_room namespace room packet exclude other.local)
        × (on_payload codec to_all node ≡ [])
        × (on_payload codec to_all other
            ≡ Rooms.broadcast_namespace namespace packet exclude other.local)
  unfolding broadcast_room broadcast_namespace publish_broadcast message_sends rooms_sends
      message_of
  on_payload-broadcast node other namespace room packet exclude h distinct =
      let (own, foreign) =
        published node other namespace (some (room ∷ [])) packet exclude h distinct in
      let (own', foreign') = published node other namespace none packet exclude h distinct in
      (
        own,
        foreign ∙ append-nil (Rooms.broadcast_room namespace room packet exclude other.local),
        own',
        foreign',
      )
