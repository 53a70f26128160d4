-- ===== src/SocketIo/Server/Emit.antt =====
-- engine/src/core/socketio/socket.rs and mod.rs: what sockets and the server send.
use rpress.Common.{ℕ, Option, none, some, List, [], ◌∷◌, ◌++◌, Str, codes, is_empty, if◌then◌else◌}
use rpress.SocketIo.Json.{Json}
use rpress.SocketIo.EngineIo.{EioPacket, message, new_packet}
use rpress.SocketIo.Packet
use rpress.SocketIo.Packet.{SioPacket}
use rpress.SocketIo.Rooms.{RoomManager, broadcast_room, broadcast_namespace}
use rpress.SocketIo.Server.{Socket, Io, World, send, send_all}

unfoldable pub message_packet : {V : Type 0} → Json V → SioPacket V → EioPacket
message_packet json pkt = new_packet message (some (Packet.encode json pkt))

-- A broadcast that is being put together.
pub record BroadcastBuilder : Type 0 where
  pub namespace : Str
  pub exclude : Option Str
  pub rooms : List Str

unfoldable pub broadcast : {V : Type 0} → Socket V → BroadcastBuilder
broadcast socket = record { namespace = socket.namespace; exclude = some socket.id; rooms = [] }

unfoldable pub to : {V : Type 0} → Socket V → Str → BroadcastBuilder
to socket room = record {
  namespace = socket.namespace;
  exclude = some socket.id;
  rooms = room ∷ [];
}

unfoldable pub also_to : Str → BroadcastBuilder → BroadcastBuilder
also_to room builder = record builder { rooms = builder.rooms ++ room ∷ [] }

unfoldable pub room_sends :
    BroadcastBuilder → List Str → EioPacket → RoomManager Str → List (Str × EioPacket)
room_sends builder [] pkt adapter = []
room_sends builder (room ∷ rooms) pkt adapter =
    broadcast_room builder.namespace room pkt builder.exclude adapter
    ++ room_sends builder rooms pkt adapter

module _ {V N : Type 0} (world : World V N) where
  unfoldable pub send_sio_packet : Socket V → SioPacket V → Io V N → Io V N
  unfolding send message_packet
  send_sio_packet socket pkt io = send socket.eio_tx (message_packet world.json pkt) io

  unfoldable pub emit : Socket V → Str → V → Io V N → Io V N
  unfolding send message_packet
  emit socket event value io =
      send socket.eio_tx
        (message_packet world.json (Packet.event world.json socket.namespace event value none)) io

  unfoldable pub emit_with_ack : Socket V → Str → V → ℕ → Io V N → Io V N
  unfolding send message_packet
  emit_with_ack socket event value ack_id io =
      send socket.eio_tx
        (message_packet world.json
          (Packet.event world.json socket.namespace event value (some ack_id)))
        io

  unfoldable pub disconnect : Socket V → Io V N → Io V N
  unfolding send_sio_packet
  disconnect socket io = send_sio_packet socket (Packet.disconnect socket.namespace) io

  unfoldable pub emit_broadcast : BroadcastBuilder → Str → V → Io V N → Io V N
  unfolding send_all message_packet room_sends
  emit_broadcast builder event value io =
      let pkt =
        message_packet world.json (Packet.event world.json builder.namespace event value none) in
      if is_empty builder.rooms
      then send_all (broadcast_namespace builder.namespace pkt builder.exclude io.adapter) io
      else send_all (room_sends builder builder.rooms pkt io.adapter) io

  -- `RpressIo::emit`
  unfoldable pub emit_everywhere : Str → V → Io V N → Io V N
  unfolding send_all message_packet
  emit_everywhere event value io =
      let pkt = message_packet world.json (Packet.event world.json (codes "/") event value none) in
      send_all (broadcast_namespace (codes "/") pkt none io.adapter) io
