-- ===== src/SocketIo/Cluster/Emitted.antt =====
-- What an event that one node of a cluster emits does at the others.
use rpress.Common.{
  Bool, true, false, inl, inr, Bool-cases, if◌then◌else◌, none, List, [], ◌∷◌, ◌++◌, append-nil,
  append_assoc, Str, codes, ◌==◌, nat_eq, list_eq, ◌≡◌, refl, sym, ap, ◌∙◌,
}
use rpress.SocketIo.EngineIo.{EioPacket}
use rpress.SocketIo.Packet
use rpress.SocketIo.Redis
use rpress.SocketIo.Redis.{Codec, RedisAdapter, on_payload}
use rpress.SocketIo.Redis.Cluster.{IsCodec, on_payload-broadcast}
use rpress.SocketIo.Rooms
use rpress.SocketIo.Server.{Io, World, send_all}
use rpress.SocketIo.Server.Emit.{
  BroadcastBuilder, message_packet, room_sends, emit_broadcast, emit_everywhere,
}
use rpress.SocketIo.Cluster.{
  ClusterIo, redis_adapter, set_adapter, publish_rooms, run_subscriber, receive_messages,
  emit_published, emit_everywhere_published,
}

-- To every socket of the namespace `/`.
abbrev pub everywhere : BroadcastBuilder
everywhere = record { namespace = codes "/"; exclude = none; rooms = [] }

-- The sends that messages make, all told.
unfoldable message_sends_of : Codec → List (Str × Str) → RedisAdapter Str → List (Str × EioPacket)
message_sends_of codec [] adapter = []
message_sends_of codec ((channel, payload) ∷ messages) adapter =
    on_payload codec payload adapter ++ message_sends_of codec messages adapter

module _ {V N : Type 0} where
  unfoldable sending : List (Str × EioPacket) → ClusterIo V N → ClusterIo V N
  sending sends node = record node { io = send_all sends node.io }

  sending-nil : (node : ClusterIo V N) → sending [] node ≡ node
  unfolding sending send_all
  sending-nil node =
      ap (λ xs. record node { io = record node.io { sent = xs } }) (append-nil node.io.sent)

  sending-append :
      (xs ys : List (Str × EioPacket)) (node : ClusterIo V N)
      → sending ys (sending xs node) ≡ sending (xs ++ ys) node
  unfolding sending send_all
  sending-append xs ys node =
      ap (λ zs. record node { io = record node.io { sent = zs } }) (append_assoc node.io.sent xs ys)

  run_subscriber-eq-sending :
      (codec : Codec) (messages : List (Str × Str)) (node : ClusterIo V N)
      → run_subscriber codec messages node
        ≡ sending (message_sends_of codec messages (redis_adapter node)) node
  unfolding run_subscriber message_sends_of sending
  run_subscriber-eq-sending codec [] node = sym (sending-nil node)
  run_subscriber-eq-sending codec ((channel, payload) ∷ messages) node =
      let here = on_payload codec payload (redis_adapter node) in
      run_subscriber-eq-sending codec messages (sending here node)
      ∙ sending-append here (message_sends_of codec messages (redis_adapter node)) node

module _ (codec : Codec) (builder : BroadcastBuilder) (pkt : EioPacket)
    (node other : RedisAdapter Str) (h : IsCodec codec)
    (distinct : (node.node_id == other.node_id) ≡ false) where
  -- A broadcast to rooms: its own sends, and those of its messages at its own node and another.
  publish_rooms_lem :
      (rooms : List Str)
      → let (sends, messages) = publish_rooms codec builder rooms pkt node in
        (sends ≡ room_sends builder rooms pkt node.local)
        × (message_sends_of codec messages node ≡ [])
        × (message_sends_of codec messages other ≡ room_sends builder rooms pkt other.local)
  unfolding publish_rooms message_sends_of room_sends Redis.broadcast_room
  publish_rooms_lem [] = (refl, refl, refl)
  publish_rooms_lem (room ∷ rooms) =
      let (sends, own, foreign) = publish_rooms_lem rooms in
      let (own', foreign', _, _) =
        on_payload-broadcast codec node other builder.namespace room pkt builder.exclude h
          distinct in
      (
        ap (λ t. Rooms.broadcast_room builder.namespace room pkt builder.exclude node.local ++ t)
            sends,
        rw (own', own) refl,
        rw (foreign', foreign) refl,
      )

module _ {V N : Type 0} (codec : Codec) where
  receive_messages-eq-if :
      (messages : List (Str × Str)) (node : ClusterIo V N) (b : Bool)
      → node.subscribed ≡ b
      → receive_messages codec messages node
        ≡ (if b then run_subscriber codec messages node else node)
  unfolding receive_messages
  receive_messages-eq-if messages node b told =
      ap (λ c. if c then run_subscriber codec messages node else node) told

  -- Messages without sends change nothing; given ones are sent by a node that is subscribed.
  receive_messages-nothing :
      (messages : List (Str × Str)) (node : ClusterIo V N)
      → message_sends_of codec messages (redis_adapter node) ≡ []
      → receive_messages codec messages node ≡ node
  receive_messages-nothing messages node none_sent = elim (Bool-cases node.subscribed) [
    | inl on ↦
        receive_messages-eq-if messages node true on
        ∙ run_subscriber-eq-sending codec messages node
        ∙ ap (λ xs. sending xs node) none_sent
        ∙ sending-nil node
    | inr off ↦ receive_messages-eq-if messages node false off
  ]

  receive_messages-sends :
      (messages : List (Str × Str)) (node : ClusterIo V N) (sends : List (Str × EioPacket))
      → node.subscribed ≡ true
      → message_sends_of codec messages (redis_adapter node) ≡ sends
      → receive_messages codec messages node ≡ record node { io = send_all sends node.io }
  unfolding sending
  receive_messages-sends messages node sends on told =
      receive_messages-eq-if messages node true on
      ∙ run_subscriber-eq-sending codec messages node
      ∙ ap (λ xs. sending xs node) told

module _ {V N : Type 0} (codec : Codec) (world : World V N) (event : Str) (value : V)
    (node other : ClusterIo V N) (h : IsCodec codec)
    (distinct : (node.node_id == other.node_id) ≡ false) (on : other.subscribed ≡ true) where
  Spreads : BroadcastBuilder → Type 0
  Spreads builder =
      let (after, messages) = emit_published codec world builder event value node in
      (after ≡ record node { io = emit_broadcast world builder event value node.io })
      × (receive_messages codec messages after ≡ after)
      × (receive_messages codec messages other
          ≡ record other { io = emit_broadcast world builder event value other.io })

  -- By the rooms that the builder names.
  emit_published-Spreads :
      (builder : BroadcastBuilder) (rooms : List Str) → Spreads (record builder { rooms = rooms })
  unfolding Spreads emit_published emit_broadcast redis_adapter send_all message_sends_of
      Redis.broadcast_namespace
  emit_published-Spreads builder [] =
      let pkt =
        message_packet world.json (Packet.event world.json builder.namespace event value none) in
      let (sends, published) =
        Redis.broadcast_namespace codec builder.namespace pkt builder.exclude
          (redis_adapter node) in
      let (_, _, own, foreign) =
        on_payload-broadcast codec (redis_adapter node) (redis_adapter other) builder.namespace []
          pkt builder.exclude h distinct in
      (
        refl,
        receive_messages-nothing codec (published ∷ [])
            (record node { io = send_all sends node.io }) (ap (λ t. t ++ []) own),
        receive_messages-sends codec (published ∷ []) other
            (Rooms.broadcast_namespace builder.namespace pkt builder.exclude other.io.adapter) on
            (append-nil (on_payload codec published.1 (redis_adapter other)) ∙ foreign),
      )
  emit_published-Spreads builder (room ∷ rooms) =
      let to_rooms = record builder { rooms = room ∷ rooms } in
      let pkt =
        message_packet world.json (Packet.event world.json builder.namespace event value none) in
      let messages = (publish_rooms codec to_rooms (room ∷ rooms) pkt (redis_adapter node)).1 in
      let (sends, own, foreign) =
        publish_rooms_lem codec to_rooms pkt (redis_adapter node) (redis_adapter other) h distinct
          (room ∷ rooms) in
      (
        ap (λ t. record node { io = send_all t node.io }) sends,
        receive_messages-nothing codec messages
            (record node {
              io =
                  send_all (publish_rooms codec to_rooms (room ∷ rooms) pkt (redis_adapter node)).0
                    node.io;
            })
            own,
        receive_messages-sends codec messages other
            (room_sends to_rooms (room ∷ rooms) pkt other.io.adapter) on foreign,
      )

-- An event that is broadcast at one node, to rooms or to a namespace: the node sends what a server
-- with its own sockets alone would send, what it publishes makes it send nothing more, and makes
-- every other node whose subscriber runs send what the same broadcast at that node would send. An
-- event of the whole server is a broadcast to the namespace `/`. A node that was given its adapter
-- by `set_adapter` sends nothing of what the others publish. This holds if Redis hands each message
-- on, in order, and it is read as it was written.
pub emit_published-each :
    {V N : Type 0} (codec : Codec) (world : World V N) (builder : BroadcastBuilder) (event : Str)
    (value : V) (node other : ClusterIo V N)
    → IsCodec codec
    → (node.node_id == other.node_id) ≡ false
    → other.subscribed ≡ true
    → let (after, messages) = emit_published codec world builder event value node in
      (after ≡ record node { io = emit_broadcast world builder event value node.io })
      × (receive_messages codec messages after ≡ after)
      × (receive_messages codec messages other
          ≡ record other { io = emit_broadcast world builder event value other.io })
      × (emit_everywhere_published codec world event value node
          ≡ emit_published codec world everywhere event value node)
      × (emit_everywhere world event value node.io
          ≡ emit_broadcast world everywhere event value node.io)
      × ((adapter : RedisAdapter Str) (io : Io V N)
          → receive_messages codec messages (set_adapter adapter io) ≡ set_adapter adapter io)
unfolding Spreads set_adapter receive_messages emit_everywhere_published emit_published
    emit_everywhere emit_broadcast
emit_published-each codec world builder event value node other h distinct on =
    let (own, quiet, foreign) =
      emit_published-Spreads codec world event value node other h distinct on builder
        builder.rooms in
    (own, quiet, foreign, refl, refl, λ adapter io. refl)
