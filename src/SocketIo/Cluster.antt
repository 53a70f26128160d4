-- ===== src/SocketIo/Cluster.antt =====
-- engine/src/core/socketio/mod.rs and redis_adapter.rs: a server whose adapter is the one over
-- Redis. The methods of that adapter that change rooms and channels are those of the manager it
-- wraps (`call_redis-eq-record` of SocketIo/Adapter/Joint), so the server is that of SocketIo/Server
-- with that manager as its adapter, the identifier of its node, and whether its subscriber was
-- started; a broadcast gives what it publishes beside the server. Redis is outside of the program.
pub mod Emitted
mod Tests
use rpress.Common.{
  Bool, true, false, Option, none, some, List, [], ◌∷◌, ◌++◌, Str, codes, is_empty, if◌then◌else◌,
}
use rpress.SocketIo.EngineIo.{EioPacket}
use rpress.SocketIo.Packet
use rpress.SocketIo.Redis
use rpress.SocketIo.Redis.{Codec, RedisAdapter, on_payload}
use rpress.SocketIo.Rooms.{RoomManager}
use rpress.SocketIo.Sessions.{EioConfig, default_config}
use rpress.SocketIo.Server.{Io, World, with_config, send_all}
use rpress.SocketIo.Server.Emit.{BroadcastBuilder, message_packet}

pub record ClusterIo (V N : Type 0) : Type 0 where
  pub io : Io V N
  pub node_id : Str
  pub subscribed : Bool

-- The sends of a broadcast to several rooms, and what it publishes: the loop of
-- `BroadcastBuilder::emit`.
unfoldable pub publish_rooms :
    Codec
    → BroadcastBuilder
    → List Str
    → EioPacket
    → RedisAdapter Str
    → List (Str × EioPacket) × List (Str × Str)
unfolding Redis.broadcast_room
publish_rooms codec builder [] pkt adapter = ([], [])
publish_rooms codec builder (room ∷ rooms) pkt adapter =
    let (sends, published) =
      Redis.broadcast_room codec builder.namespace room pkt builder.exclude adapter in
    let (later, rest) = publish_rooms codec builder rooms pkt adapter in
    (sends ++ later, published ∷ rest)

module _ {V N : Type 0} where
  unfoldable pub redis_adapter : ClusterIo V N → RedisAdapter Str
  redis_adapter node = record { local = node.io.adapter; node_id = node.node_id }

  -- `set_adapter` with a `RedisAdapter`, which does not start its subscriber.
  unfoldable pub set_adapter : RedisAdapter Str → Io V N → ClusterIo V N
  set_adapter adapter io = record {
    io = record io { adapter = adapter.local };
    node_id = adapter.node_id;
    subscribed = false;
  }

  -- `redis::Client::open` accepts the URL or not; `node_id` is the identifier that is drawn.
  unfoldable pub with_redis_config : (Str → Bool) → Str → Str → EioConfig → Option (ClusterIo V N)
  unfolding with_config Redis.new
  with_redis_config opens node_id redis_url config =
      let adapter = Redis.new node_id in
      let io = with_config config in
      if opens redis_url
      then some (record {
        io = record io { adapter = adapter.local };
        node_id = adapter.node_id;
        subscribed = true;
      })
      else none

  unfoldable pub with_redis : (Str → Bool) → Str → Str → Option (ClusterIo V N)
  unfolding with_redis_config
  with_redis opens node_id redis_url = with_redis_config opens node_id redis_url default_config

  -- What the subscriber does with the messages that come in, each a channel and a payload.
  unfoldable pub run_subscriber : Codec → List (Str × Str) → ClusterIo V N → ClusterIo V N
  unfolding on_payload redis_adapter send_all
  run_subscriber codec [] node = node
  run_subscriber codec ((channel, payload) ∷ messages) node =
      run_subscriber codec messages
        (record node { io = send_all (on_payload codec payload (redis_adapter node)) node.io })

  unfoldable pub receive_messages : Codec → List (Str × Str) → ClusterIo V N → ClusterIo V N
  unfolding run_subscriber
  receive_messages codec messages node =
      if node.subscribed then run_subscriber codec messages node else node

  -- `BroadcastBuilder::emit` and `RpressIo::emit`: the server, and what is published.
  unfoldable pub emit_published :
      Codec
      → World V N
      → BroadcastBuilder
      → Str
      → V
      → ClusterIo V N
      → ClusterIo V N × List (Str × Str)
  unfolding redis_adapter send_all message_packet Redis.broadcast_namespace publish_rooms
  emit_published codec world builder event value node =
      let pkt =
        message_packet world.json (Packet.event world.json builder.namespace event value none) in
      let adapter = redis_adapter node in
      let (to_all, published) =
        Redis.broadcast_namespace codec builder.namespace pkt builder.exclude adapter in
      let (to_rooms, each) = publish_rooms codec builder builder.rooms pkt adapter in
      if is_empty builder.rooms
      then (record node { io = send_all to_all node.io }, published ∷ [])
      else (record node { io = send_all to_rooms node.io }, each)

  unfoldable pub emit_everywhere_published :
      Codec → World V N → Str → V → ClusterIo V N → ClusterIo V N × List (Str × Str)
  unfolding redis_adapter send_all message_packet Redis.broadcast_namespace
  emit_everywhere_published codec world event value node =
      let pkt = message_packet world.json (Packet.event world.json (codes "/") event value none) in
      let (sends, published) =
        Redis.broadcast_namespace codec (codes "/") pkt none (redis_adapter node) in
      (record node { io = send_all sends node.io }, published ∷ [])
