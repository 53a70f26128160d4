-- ===== src/SocketIo/Rooms/Tests.antt =====
-- Two sockets in two rooms.
use rpress.Common.{ℕ, false, none, some, List, [], ◌∷◌, codes, runs, if◌then◌else◌, ◌≡◌, refl}
use rpress.SocketIo.EngineIo.{EioPacket, message}
use rpress.SocketIo.Rooms.{
  RoomManager, join, register_sender, broadcast_room, broadcast_namespace, room_members, new,
}
use rpress.SocketIo.Rooms.{send_members}
use rpress.SocketIo.Rooms.Recipients.{sockets_in, count, in_namespace}
use rpress.SocketIo.Rooms.Broadcast.{broadcast_namespace-sockets_in}
use rpress.SocketIo.Rooms.Members.{member, IsRooms}
use rpress.SocketIo.Rooms.Trace.{RoomStep, joins, leaves, effects, run, run-new}

abbrev hello : EioPacket
hello = record { packet_type = message; content = some (codes "hello") }

abbrev steps : List RoomStep
steps =
    joins (codes "/") (codes "a") (codes "s")
    ∷ joins (codes "/") (codes "b") (codes "s")
    ∷ joins (codes "/") (codes "b") (codes "t")
    ∷ leaves (codes "/") (codes "a") (codes "s")
    ∷ []

-- The channel of a socket is a number.
abbrev manager : RoomManager ℕ
manager = register_sender (codes "s") 1 (register_sender (codes "t") 2 (run steps new))

members_left :
    (room_members (codes "/") (codes "a") manager ≡ [])
    × (room_members (codes "/") (codes "b") manager ≡ codes "s" ∷ codes "t" ∷ [])
unfolding runs run new register_sender room_members
members_left = (refl, refl)

-- The sender itself is left out.
sent_to_others :
    broadcast_room (codes "/") (codes "b") hello (some (codes "s")) manager ≡ (2, hello) ∷ []
unfolding runs run new register_sender broadcast_room
sent_to_others = refl

-- A socket in two rooms of the namespace gets the packet once.
sent_once :
    broadcast_namespace (codes "/") hello none (join (codes "/") (codes "c") (codes "s") manager)
    ≡ (1, hello) ∷ (2, hello) ∷ []
unfolding runs run new register_sender join broadcast_namespace
sent_once = refl

run-new_example :
    (member (codes "/", codes "b") (codes "t") (run {T = ℕ} steps new).rooms
      ≡ effects steps (codes "/", codes "b") (codes "t") false)
    × IsRooms (run {T = ℕ} steps new).rooms
run-new_example = run-new ℕ steps (codes "/", codes "b") (codes "t")

broadcast_namespace-sockets_in_example :
    (broadcast_namespace (codes "/") hello none manager
      ≡ send_members manager.senders hello none (sockets_in (codes "/") manager.rooms []))
    × (count (codes "s") (sockets_in (codes "/") manager.rooms [])
        ≡ (if in_namespace (codes "/") (codes "s") manager.rooms then 1 else 0))
broadcast_namespace-sockets_in_example =
    broadcast_namespace-sockets_in (codes "/") (codes "s") hello none manager
