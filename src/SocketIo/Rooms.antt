-- ===== src/SocketIo/Rooms.antt =====
-- engine/src/core/socketio/room.rs: the in-memory `RoomManager`. A set is a list without repeated
-- elements, a room is named by its namespace and its own name, and `T` is the type of a socket's
-- channel. A broadcast gives the list of its sends, in order; each method holds the locks of what
-- it reads or writes, so it is one step.
pub mod Members
pub mod Trace
pub mod Recipients
pub mod Broadcast
mod Tests
use rpress.Common.{
  ℕ, Bool, true, false, not, ◌&&◌, ◌||◌, Option, none, some, List, [], ◌∷◌, ◌++◌, Str, HashMap,
  lookup, insert, remove, any, retain, is_empty, if◌then◌else◌, ◌==◌, nat_eq, list_eq, pair_eq,
  unwrap_or,
}
use rpress.SocketIo.EngineIo.{EioPacket}

-- `RoomKey`: the namespace and the room.
abbrev pub RoomKey : Type 0
RoomKey = Str × Str

abbrev pub Rooms : Type 0
Rooms = HashMap RoomKey (List Str)

pub record RoomManager (T : Type 0) : Type 0 where
  pub rooms : Rooms
  pub senders : HashMap Str T

-- `HashSet::insert` and `HashSet::remove`
unfoldable pub set_insert : Str → List Str → List Str
set_insert s set = if any (λ x. x == s) set then set else set ++ s ∷ []

unfoldable pub set_remove : Str → List Str → List Str
set_remove s set = retain (λ x. not (x == s)) set

unfoldable pub join_room : RoomKey → Str → Rooms → Rooms
unfolding set_insert
join_room key socket_id rooms =
    insert key (set_insert socket_id (unwrap_or (lookup key rooms) [])) rooms

unfoldable pub leave_room : RoomKey → Str → Rooms → Rooms
unfolding set_remove
leave_room key socket_id rooms = elim (lookup key rooms) [
  | none ↦ rooms
  | some members ↦
      if is_empty (set_remove socket_id members)
      then remove key rooms
      else insert key (set_remove socket_id members) rooms
]

unfoldable pub leave_rooms : Str → Rooms → Rooms
unfolding set_remove
leave_rooms socket_id [] = []
leave_rooms socket_id ((key, members) ∷ rooms) =
    let rest = leave_rooms socket_id rooms in
    if is_empty (set_remove socket_id members)
    then rest
    else (key, set_remove socket_id members) ∷ rest

is_excluded : Option Str → Str → Bool
is_excluded none member_id = false
is_excluded (some s) member_id = s == member_id

module _ {T : Type 0} where
  unfoldable pub new : RoomManager T
  new = record { rooms = []; senders = [] }

  unfoldable pub register_sender : Str → T → RoomManager T → RoomManager T
  register_sender socket_id tx m = record m { senders = insert socket_id tx m.senders }

  unfoldable pub unregister_sender : Str → RoomManager T → RoomManager T
  unregister_sender socket_id m = record m { senders = remove socket_id m.senders }

  unfoldable pub join : Str → Str → Str → RoomManager T → RoomManager T
  unfolding join_room
  join namespace room socket_id m = record m {
    rooms = join_room (namespace, room) socket_id m.rooms;
  }

  unfoldable pub leave : Str → Str → Str → RoomManager T → RoomManager T
  unfolding leave_room
  leave namespace room socket_id m = record m {
    rooms = leave_room (namespace, room) socket_id m.rooms;
  }

  unfoldable pub leave_all : Str → RoomManager T → RoomManager T
  unfolding leave_rooms
  leave_all socket_id m = record m { rooms = leave_rooms socket_id m.rooms }

  unfoldable pub room_members : Str → Str → RoomManager T → List Str
  room_members namespace room m = unwrap_or (lookup (namespace, room) m.rooms) []

  unfoldable pub send_members :
      HashMap Str T → EioPacket → Option Str → List Str → List (T × EioPacket)
  unfolding is_excluded
  send_members senders packet exclude [] = []
  send_members senders packet exclude (member_id ∷ members) =
      let rest = send_members senders packet exclude members in
      if is_excluded exclude member_id
      then rest
      else elim (lookup member_id senders) [ none ↦ rest | some tx ↦ (tx, packet) ∷ rest ]

  unfoldable pub broadcast_room :
      Str → Str → EioPacket → Option Str → RoomManager T → List (T × EioPacket)
  unfolding room_members send_members
  broadcast_room namespace room packet exclude m =
      send_members m.senders packet exclude (room_members namespace room m)

  -- The members of one room, with those who were sent to before.
  unfoldable pub send_unsent :
      HashMap Str T → EioPacket → Option Str → List Str → List Str → List (T × EioPacket) × List Str
  unfolding is_excluded
  send_unsent senders packet exclude [] sent = ([], sent)
  send_unsent senders packet exclude (member_id ∷ members) sent =
      let skip = send_unsent senders packet exclude members sent in
      let (sends, sent') = send_unsent senders packet exclude members (sent ++ member_id ∷ []) in
      if is_excluded exclude member_id || any (λ x. x == member_id) sent
      then skip
      else elim (lookup member_id senders) [ none ↦ skip | some tx ↦ ((tx, packet) ∷ sends, sent') ]

  unfoldable pub send_rooms :
      HashMap Str T → Str → EioPacket → Option Str → Rooms → List Str → List (T × EioPacket)
  unfolding send_unsent
  send_rooms senders namespace packet exclude [] sent = []
  send_rooms senders namespace packet exclude ((key, members) ∷ rooms) sent =
      let (sends, sent') = send_unsent senders packet exclude members sent in
      let here = sends ++ send_rooms senders namespace packet exclude rooms sent' in
      let skip = send_rooms senders namespace packet exclude rooms sent in
      if key.0 == namespace then here else skip

  unfoldable pub broadcast_namespace :
      Str → EioPacket → Option Str → RoomManager T → List (T × EioPacket)
  unfolding send_rooms
  broadcast_namespace namespace packet exclude m =
      send_rooms m.senders namespace packet exclude m.rooms []
