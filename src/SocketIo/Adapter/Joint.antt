-- ===== src/SocketIo/Adapter/Joint.antt =====
-- A cluster of nodes over Redis, each with its own sockets, and one manager with all of them.
use mathlib.Core.Path.{subst}
use rpress.Common.{
  Bool, true, false, ◌&&◌, any, Option, List, [], ◌∷◌, Str, HashMap, lookup, if◌then◌else◌, ◌==◌,
  eq_iff, nat_eq, list_eq, ◌≡◌, refl, sym, ap, ◌∙◌, inl, inr, Bool-cases, arith,
}
use rpress.SocketIo.EngineIo.{EioPacket}
use rpress.SocketIo.Rooms
use rpress.SocketIo.Rooms.{RoomKey, RoomManager, send_members, room_members}
use rpress.SocketIo.Rooms.Members.{IsRooms}
use rpress.SocketIo.Redis
use rpress.SocketIo.Redis.{Codec, RedisAdapter, broadcast_room, on_payload}
use rpress.SocketIo.Redis.Cluster.{IsCodec, on_payload-broadcast}
use rpress.SocketIo.Adapter.{
  AdapterCall, register_sender, unregister_sender, join, leave, leave_all, socket_of, call_rooms,
  call_redis,
}
use rpress.SocketIo.Adapter.Effects.{
  members_of, effect, sender_effect, call_rooms-effect, call_rooms-sender_effect,
  call_rooms-IsRooms,
}
use rpress.SocketIo.Adapter.Shares.{share, share-effect, share-effect_away, any-share}

module _ {T : Type 0} where
  -- All calls at one manager.
  unfoldable pub run_joint : List (AdapterCall T) → RoomManager T → RoomManager T
  run_joint [] m = m
  run_joint (call ∷ calls) m = run_joint calls (call_rooms call m)

  -- A call about a socket of its own.
  unfoldable pub call_own : Bool → AdapterCall T → RedisAdapter T → RedisAdapter T
  call_own own call node = if own then call_redis call node else node

  call_redis-eq-record :
      (call : AdapterCall T) (node : RedisAdapter T)
      → call_redis call node ≡ record node { local = call_rooms call node.local }
  unfolding call_redis call_rooms Redis.register_sender Redis.unregister_sender Redis.join
      Redis.leave Redis.leave_all
  call_redis-eq-record (register_sender s tx) node = refl
  call_redis-eq-record (unregister_sender s) node = refl
  call_redis-eq-record (join namespace room s) node = refl
  call_redis-eq-record (leave namespace room s) node = refl
  call_redis-eq-record (leave_all s) node = refl

  -- What a call does to the channel of another socket.
  sender_effect-other :
      (call : AdapterCall T) (t : Str) (o : Option T)
      → (socket_of call == t) ≡ false
      → sender_effect call t o ≡ o
  unfolding sender_effect socket_of
  sender_effect-other (register_sender s tx) t o h = rw h refl
  sender_effect-other (unregister_sender s) t o h = rw h refl
  sender_effect-other (join namespace room s) t o h = refl
  sender_effect-other (leave namespace room s) t o h = refl
  sender_effect-other (leave_all s) t o h = refl

module _ (home : Str → Str) where
  elsewhere : (id s t : Str) → (home s == id) ≡ false → (home t == id) ≡ true → (s == t) ≡ false
  elsewhere id s t away at = elim (Bool-cases (s == t)) [
    | inl same ↦ absurd (ground (arith, ap (λ u. home u == id) ((eq_iff s t).0 same)))
    | inr other ↦ other
  ]

module _ {T : Type 0} (home : Str → Str) where
  -- The calls about the sockets that live on a node, in their order.
  unfoldable pub run_node : List (AdapterCall T) → RedisAdapter T → RedisAdapter T
  run_node [] node = node
  run_node (call ∷ calls) node =
      run_node calls (call_own (home (socket_of call) == node.node_id) call node)

  record Agrees (id : Str) (m joint : RoomManager T) : Type 0 where
    members : (k : RoomKey) → members_of k m.rooms ≡ share home id (members_of k joint.rooms)
    senders : (t : Str) → (home t == id) ≡ true → lookup t m.senders ≡ lookup t joint.senders
    own_rooms : IsRooms m.rooms
    all_rooms : IsRooms joint.rooms

  call-Agrees :
      (id : Str) (call : AdapterCall T) (m joint : RoomManager T)
      → Agrees id m joint
      → (home (socket_of call) == id) ≡ true
      → Agrees id (call_rooms call m) (call_rooms call joint)
  call-Agrees id call m joint h own = record {
    members = λ k.
        call_rooms-effect call m k h.own_rooms
        ∙ (ap (effect call k) (h.members k)
            ∙ (sym (share-effect home id call k (members_of k joint.rooms) own)
                ∙ ap (share home id) (sym (call_rooms-effect call joint k h.all_rooms))));
    senders = λ t at.
        call_rooms-sender_effect call m t
        ∙ (ap (sender_effect call t) (h.senders t at)
            ∙ sym (call_rooms-sender_effect call joint t));
    own_rooms = call_rooms-IsRooms call m h.own_rooms;
    all_rooms = call_rooms-IsRooms call joint h.all_rooms;
  }

  away-Agrees :
      (id : Str) (call : AdapterCall T) (m joint : RoomManager T)
      → Agrees id m joint
      → (home (socket_of call) == id) ≡ false
      → Agrees id m (call_rooms call joint)
  away-Agrees id call m joint h away = record {
    members = λ k.
        h.members k
        ∙ (sym (share-effect_away home id call k (members_of k joint.rooms) away)
            ∙ ap (share home id) (sym (call_rooms-effect call joint k h.all_rooms)));
    senders = λ t at.
        h.senders t at
        ∙ (sym (
              sender_effect-other call t (lookup t joint.senders)
                (elsewhere home id (socket_of call) t away at))
            ∙ sym (call_rooms-sender_effect call joint t));
    own_rooms = h.own_rooms;
    all_rooms = call_rooms-IsRooms call joint h.all_rooms;
  }

  -- What is left to show of a node behind a call.
  Follows : List (AdapterCall T) → Str → RoomManager T → RedisAdapter T → Type 0
  Follows calls id joint node =
      ((run_node calls node).node_id ≡ id)
      × Agrees id (run_node calls node).local (run_joint calls joint)

  run-Agrees :
      (calls : List (AdapterCall T)) (node : RedisAdapter T) (joint : RoomManager T)
      → Agrees node.node_id node.local joint
      → Follows calls node.node_id joint node
  unfolding run_node run_joint call_own Follows
  run-Agrees [] node joint h = (refl, h)
  run-Agrees (call ∷ calls) node joint h =
      let id = node.node_id in
      let joint' = call_rooms call joint in
      elim (Bool-cases (home (socket_of call) == id)) [
        | inl own ↦
            let node' : RedisAdapter T = record node { local = call_rooms call node.local } in
            let kept = run-Agrees calls node' joint' (call-Agrees id call node.local joint h own) in
            let is_node' : call_own (home (socket_of call) == id) call node ≡ node' =
              rw own (call_redis-eq-record call node) in
            subst (Follows calls id joint') (sym is_node') kept
        | inr away ↦
            let kept = run-Agrees calls node joint' (away-Agrees id call node.local joint h away) in
            let is_node : call_own (home (socket_of call) == id) call node ≡ node = rw away refl in
            subst (Follows calls id joint') (sym is_node) kept
      ]

  new-Agrees : (id : Str) → Agrees id Rooms.new Rooms.new
  unfolding Rooms.new share members_of lookup IsRooms
  new-Agrees id = record {
    members = λ k. refl;
    senders = λ t at. refl;
    own_rooms = tt;
    all_rooms = tt;
  }

  -- The channels of the sockets of a node are those of the one manager.
  send_members-share :
      (id : Str) (senders senders' : HashMap Str T) (packet : EioPacket) (exclude : Option Str)
      (set : List Str)
      → ((t : Str) → (home t == id) ≡ true → lookup t senders ≡ lookup t senders')
      → send_members senders packet exclude (share home id set)
        ≡ send_members senders' packet exclude (share home id set)
  unfolding send_members share
  send_members-share id senders senders' packet exclude [] h = refl
  send_members-share id senders senders' packet exclude (s ∷ set) h =
      let later = send_members-share id senders senders' packet exclude set h in
      elim (Bool-cases (home s == id)) [
        | inl here ↦ rw here (ground (arith, later, h s here))
        | inr away ↦ rw away later
      ]

  broadcast_room-Agrees :
      (id namespace room : Str) (packet : EioPacket) (exclude : Option Str)
      (m joint : RoomManager T)
      → Agrees id m joint
      → Rooms.broadcast_room namespace room packet exclude m
        ≡ send_members joint.senders packet exclude
            (share home id (room_members namespace room joint))
  unfolding Rooms.broadcast_room room_members members_of
  broadcast_room-Agrees id namespace room packet exclude m joint h =
      ap (send_members m.senders packet exclude) (h.members (namespace, room))
      ∙ send_members-share id m.senders joint.senders packet exclude
          (room_members namespace room joint) h.senders

-- A cluster serves a room as one manager with all sockets would, after any calls of the adapter,
-- each made at the node on which its socket lives: of the sends that a broadcast of the one manager
-- makes, in its order, the node that broadcasts makes those to its own sockets, and every other
-- node, on what that node publishes, those to its own; each member of the room lives on one node.
-- This holds if Redis hands the payload on and it is read as it was written.
pub broadcast_room-joint :
    {T : Type 0} (home : Str → Str) (codec : Codec) (calls : List (AdapterCall T))
    (id other_id namespace room : Str) (packet : EioPacket) (exclude : Option Str)
    → IsCodec codec
    → (id == other_id) ≡ false
    → let joint = run_joint calls Rooms.new in
      let node = run_node home calls (Redis.new id) in
      let other = run_node home calls (Redis.new other_id) in
      let (sends, published) = broadcast_room codec namespace room packet exclude node in
      let members = room_members namespace room joint in
      (sends ≡ send_members joint.senders packet exclude (share home id members))
      × (on_payload codec published.1 other
          ≡ send_members joint.senders packet exclude (share home other_id members))
      × ((at t : Str)
          → any (λ s. s == t) (share home at members)
            ≡ (any (λ s. s == t) members && (home t == at)))
unfolding Follows Redis.new broadcast_room
broadcast_room-joint home codec calls id other_id namespace room packet exclude h distinct =
    let joint = run_joint calls Rooms.new in
    let node = run_node home calls (Redis.new id) in
    let other = run_node home calls (Redis.new other_id) in
    let (is_id, agrees) = run-Agrees home calls (Redis.new id) Rooms.new (new-Agrees home id) in
    let (is_other, agrees') =
      run-Agrees home calls (Redis.new other_id) Rooms.new (new-Agrees home other_id) in
    let apart : (node.node_id == other.node_id) ≡ false = rw (is_id, is_other) distinct in
    let (_, foreign, _, _) =
      on_payload-broadcast codec node other namespace room packet exclude h apart in
    (
      broadcast_room-Agrees home id namespace room packet exclude node.local joint agrees,
      foreign
          ∙ broadcast_room-Agrees home other_id namespace room packet exclude other.local joint
              agrees',
      λ at t. any-share home at t (room_members namespace room joint),
    )
