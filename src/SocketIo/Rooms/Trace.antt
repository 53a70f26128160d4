-- ===== src/SocketIo/Rooms/Trace.antt =====
-- Rooms after a history of joins and leaves.
use rpress.Common.{
  Bool, false, not, ◌&&◌, ◌||◌, List, [], ◌∷◌, Str, lookup, is_empty, ◌==◌, nat_eq, list_eq,
  pair_eq, unwrap_or, ◌≡◌, refl, ap, ◌∙◌, inl, inr, Bool-cases, Option-cases, arith,
}
use rpress.SocketIo.Rooms.{
  RoomKey, Rooms, RoomManager, set_insert, set_remove, join_room, leave_room, join, leave,
  leave_all, new,
}
use rpress.SocketIo.Rooms.Members.{
  member, IsRooms, insert-IsRooms, remove-IsRooms, leave_rooms-IsRooms, member-join_room,
  member-leave_room, member-leave_rooms,
}

pub data RoomStep : Type 0 where
  joins : Str → Str → Str → RoomStep
  leaves : Str → Str → Str → RoomStep
  leaves_all : Str → RoomStep

-- What a step makes of the fact that a socket is in a room.
unfoldable pub effect : RoomStep → RoomKey → Str → Bool → Bool
effect (joins namespace room s) k t b = (namespace, room) == k && s == t || b
effect (leaves namespace room s) k t b = b && not ((namespace, room) == k && s == t)
effect (leaves_all s) k t b = b && not (s == t)

unfoldable pub effects : List RoomStep → RoomKey → Str → Bool → Bool
effects [] k t b = b
effects (step ∷ steps) k t b = effects steps k t (effect step k t b)

set_insert-full : (s : Str) (set : List Str) → is_empty (set_insert s set) ≡ false
unfolding set_insert
set_insert-full s [] = refl
set_insert-full s (x ∷ set) = ground arith

pub join_room-IsRooms :
    (key : RoomKey) (s : Str) (rooms : Rooms) → IsRooms rooms → IsRooms (join_room key s rooms)
unfolding join_room
join_room-IsRooms key s rooms h =
    insert-IsRooms key _ rooms (set_insert-full s (unwrap_or (lookup key rooms) [])) h

pub leave_room-IsRooms :
    (key : RoomKey) (s : Str) (rooms : Rooms) → IsRooms rooms → IsRooms (leave_room key s rooms)
unfolding leave_room
leave_room-IsRooms key s rooms h = elim (Option-cases (lookup key rooms)) [
  | inl unknown ↦ rw (unknown, leave_room) h
  | inr (members, known) ↦ elim (Bool-cases (is_empty (set_remove s members))) [
    | inl left ↦ rw (known, leave_room, left) (remove-IsRooms key rooms h)
    | inr stays ↦ rw (known, leave_room, stays) (insert-IsRooms key _ rooms stays h)
  ]
]

module _ {T : Type 0} where
  unfoldable pub run_step : RoomStep → RoomManager T → RoomManager T
  unfolding join leave leave_all
  run_step (joins namespace room s) m = join namespace room s m
  run_step (leaves namespace room s) m = leave namespace room s m
  run_step (leaves_all s) m = leave_all s m

  unfoldable pub run : List RoomStep → RoomManager T → RoomManager T
  unfolding run_step
  run [] m = m
  run (step ∷ steps) m = run steps (run_step step m)

  run_step-IsRooms :
      (step : RoomStep) (m : RoomManager T) → IsRooms m.rooms → IsRooms (run_step step m).rooms
  unfolding run_step
  run_step-IsRooms (joins namespace room s) m h = join_room-IsRooms (namespace, room) s m.rooms h
  run_step-IsRooms (leaves namespace room s) m h = leave_room-IsRooms (namespace, room) s m.rooms h
  run_step-IsRooms (leaves_all s) m h = leave_rooms-IsRooms s m.rooms h

  run_step-eq-effect :
      (step : RoomStep) (m : RoomManager T) (k : RoomKey) (t : Str)
      → IsRooms m.rooms
      → member k t (run_step step m).rooms ≡ effect step k t (member k t m.rooms)
  unfolding run_step effect
  run_step-eq-effect (joins namespace room s) m k t h =
      member-join_room (namespace, room) k s t m.rooms
  run_step-eq-effect (leaves namespace room s) m k t h =
      member-leave_room (namespace, room) k s t m.rooms
  run_step-eq-effect (leaves_all s) m k t h = member-leave_rooms k s t m.rooms h

  run-eq-effects :
      (steps : List RoomStep) (m : RoomManager T) (k : RoomKey) (t : Str)
      → IsRooms m.rooms
      → (member k t (run steps m).rooms ≡ effects steps k t (member k t m.rooms))
        × IsRooms (run steps m).rooms
  unfolding run effects
  run-eq-effects [] m k t h = (refl, h)
  run-eq-effects (step ∷ steps) m k t h =
      let (same, kept) = run-eq-effects steps (run_step step m) k t (run_step-IsRooms step m h) in
      (same ∙ ap (effects steps k t) (run_step-eq-effect step m k t h), kept)

-- After any history of joins and leaves of a new manager, a socket is in a room exactly if the
-- effects of the steps, one after the other, put it there: a join adds the one socket to the one
-- room, a leave takes it out, and a leave of all rooms takes it out of each. Every room is listed
-- once, and none is empty.
pub run-new :
    (T : Type 0) (steps : List RoomStep) (k : RoomKey) (t : Str)
    → (member k t (run {T = T} steps new).rooms ≡ effects steps k t false)
      × IsRooms (run {T = T} steps new).rooms
unfolding new IsRooms member lookup
run-new T steps k t = run-eq-effects {T = T} steps new k t tt
