-- ===== src/SocketIo/Adapter/Tests.antt =====
-- Three sockets on two nodes.
use rpress.Common.{
  ℕ, ◌&&◌, none, List, [], ◌∷◌, Str, codes, any, runs, if◌then◌else◌, ◌==◌, nat_eq, list_eq,
  list_beq, ◌≡◌, refl,
}
use rpress.SocketIo.Rooms
use rpress.SocketIo.Rooms.{send_members, room_members}
use rpress.SocketIo.Redis
use rpress.SocketIo.Redis.{broadcast_room, on_payload}
use rpress.SocketIo.Redis.Tests.{codec, codec-IsCodec, hello}
use rpress.SocketIo.Adapter.{AdapterCall, register_sender, join, leave, call_rooms}
use rpress.SocketIo.Adapter.Shares.{share}
use rpress.SocketIo.Adapter.Joint.{run_joint, run_node, broadcast_room-joint}

-- The sockets `b` and `c` live on the node `m`.
abbrev home : Str → Str
home s = if s == codes "a" then codes "n" else codes "m"

abbrev calls : List (AdapterCall ℕ)
calls =
    register_sender (codes "a") 1
    ∷ register_sender (codes "b") 2
    ∷ register_sender (codes "c") 3
    ∷ join (codes "/") (codes "r") (codes "b")
    ∷ join (codes "/") (codes "r") (codes "a")
    ∷ join (codes "/") (codes "r") (codes "c")
    ∷ leave (codes "/") (codes "r") (codes "c")
    ∷ []

broadcast_room-joint_example :
    let joint = run_joint calls Rooms.new in
    let node = run_node home calls (Redis.new (codes "n")) in
    let other = run_node home calls (Redis.new (codes "m")) in
    let (sends, published) = broadcast_room codec (codes "/") (codes "r") hello none node in
    let members = room_members (codes "/") (codes "r") joint in
    (sends ≡ send_members joint.senders hello none (share home (codes "n") members))
    × (on_payload codec published.1 other
        ≡ send_members joint.senders hello none (share home (codes "m") members))
    × ((at t : Str)
        → any (λ s. s == t) (share home at members) ≡ (any (λ s. s == t) members && (home t == at)))
unfolding list_beq
broadcast_room-joint_example =
    broadcast_room-joint home codec calls (codes "n") (codes "m") (codes "/") (codes "r") hello none
      codec-IsCodec refl

shared :
    (share home (codes "n") (room_members (codes "/") (codes "r") (run_joint calls Rooms.new))
      ≡ codes "a" ∷ [])
    × (share home (codes "m") (room_members (codes "/") (codes "r") (run_joint calls Rooms.new))
        ≡ codes "b" ∷ [])
unfolding runs share room_members run_joint call_rooms Rooms.new Rooms.leave Rooms.join
    Rooms.register_sender
shared = (refl, refl)
