-- ===== src/SocketIo/Cluster/Tests.antt =====
-- Two nodes with a socket each, both in the room `r` of the namespace `/`.
use rpress.Common.{
  true, ℕ, some, List, [], ◌∷◌, Str, codes, map, runs, nat_eq, list_eq, list_beq, ◌≡◌, refl,
}
use rpress.SocketIo.Sample.{Value, raw}
use rpress.SocketIo.Packet
use rpress.SocketIo.Rooms
use rpress.SocketIo.Redis
use rpress.SocketIo.Redis.{RedisAdapter}
use rpress.SocketIo.Redis.Tests.{codec, codec-IsCodec}
use rpress.SocketIo.Server.{Io, with_config, set_connection_handler}
use rpress.SocketIo.Server.Emit.{BroadcastBuilder, emit_broadcast, emit_everywhere}
use rpress.SocketIo.Server.Setup.{new_io, on_default_connection}
use rpress.SocketIo.Server.Tests.{world}
use rpress.SocketIo.Cluster.{
  ClusterIo, set_adapter, receive_messages, emit_published, emit_everywhere_published,
}
use rpress.SocketIo.Cluster.Emitted.{everywhere, emit_published-each}

abbrev node : Str → Str → ClusterIo Value ℕ
node node_id socket_id =
    let adapter =
      Redis.join (codes "/") (codes "r") socket_id
        (Redis.register_sender socket_id (b't' ∷ socket_id) (Redis.new node_id)) in
    record (set_adapter adapter (on_default_connection 7 new_io)) { subscribed = true }

-- From the socket `a` to the rooms `r` and `q`.
abbrev builder : BroadcastBuilder
builder = record {
  namespace = codes "/";
  exclude = some (codes "a");
  rooms = codes "r" ∷ codes "q" ∷ [];
}

emit_published-each_example :
    let here = node (codes "n") (codes "a") in
    let there = node (codes "m") (codes "b") in
    let value = raw (codes "1") in
    let (after, messages) = emit_published codec world builder (codes "hello") value here in
    (after ≡ record here { io = emit_broadcast world builder (codes "hello") value here.io })
    × (receive_messages codec messages after ≡ after)
    × (receive_messages codec messages there
        ≡ record there { io = emit_broadcast world builder (codes "hello") value there.io })
    × (emit_everywhere_published codec world (codes "hello") value here
        ≡ emit_published codec world everywhere (codes "hello") value here)
    × (emit_everywhere world (codes "hello") value here.io
        ≡ emit_broadcast world everywhere (codes "hello") value here.io)
    × ((adapter : RedisAdapter Str) (io : Io Value ℕ)
        → receive_messages codec messages (set_adapter adapter io) ≡ set_adapter adapter io)
unfolding set_adapter Redis.new Redis.join Redis.register_sender list_beq
emit_published-each_example =
    emit_published-each codec world builder (codes "hello") (raw (codes "1"))
      (node (codes "n") (codes "a")) (node (codes "m") (codes "b")) codec-IsCodec refl refl

-- The other node sends to its socket; the first one leaves out the socket that broadcasts.
sends_of : ClusterIo Value ℕ → List Str
sends_of node = map (λ p. p.0) node.io.sent

reached :
    let (after, messages) =
      emit_published codec world builder
        (codes "hello")
        (raw (codes "1"))
        (node (codes "n") (codes "a")) in
    (sends_of after ≡ [])
    × (sends_of (receive_messages codec messages (node (codes "m") (codes "b"))) ≡ codes "tb" ∷ [])
unfolding runs sends_of set_adapter emit_published receive_messages Redis.new Redis.join
    Redis.register_sender on_default_connection new_io set_connection_handler with_config
    Rooms.broadcast_room Rooms.join Rooms.register_sender Rooms.new Packet.encode Packet.event
reached = (refl, refl)
