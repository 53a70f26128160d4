-- ===== src/SocketIo/Adapter/Effects.antt =====
-- What a call makes of the members of a room, and of the channel of a socket.
use rpress.Common.{
  true, Option, none, some, List, [], ◌∷◌, Str, lookup, lookup-insert, lookup-remove, is_empty,
  if◌then◌else◌, ◌==◌, eq_iff, nat_eq, list_eq, pair_eq, unwrap_or, ◌≡◌, refl, sym, ap, ◌∙◌, inl,
  inr, Bool-cases, Option-cases, arith,
}
use rpress.SocketIo.Rooms
use rpress.SocketIo.Rooms.{
  RoomKey, Rooms, RoomManager, set_insert, set_remove, join_room, leave_room, leave_rooms,
}
use rpress.SocketIo.Rooms.Members.{IsRooms, lookup-leave_rooms, leave_rooms-IsRooms}
use rpress.SocketIo.Rooms.Trace.{join_room-IsRooms, leave_room-IsRooms}
use rpress.SocketIo.Adapter.{
  AdapterCall, register_sender, unregister_sender, join, leave, leave_all, call_rooms,
}

unfoldable pub members_of : RoomKey → Rooms → List Str
members_of key rooms = unwrap_or (lookup key rooms) []

is_empty-nil : (set : List Str) → is_empty set ≡ true → set ≡ []
is_empty-nil [] h = refl
is_empty-nil (x ∷ set) h = absurd (ground arith)

set_remove-nil : (s : Str) → set_remove s [] ≡ []
unfolding set_remove
set_remove-nil s = refl

members_of-join_room :
    (key k : RoomKey) (s : Str) (rooms : Rooms)
    → members_of k (join_room key s rooms)
      ≡ (if key == k then set_insert s (members_of k rooms) else members_of k rooms)
unfolding members_of join_room
members_of-join_room key k s rooms =
    let found = lookup-insert key k (set_insert s (unwrap_or (lookup key rooms) [])) rooms in
    elim (Bool-cases (key == k)) [
      | inl same ↦
          let e : key ≡ k = (eq_iff key k).0 same in
          rw (found, same) (ap (λ q. set_insert s (unwrap_or (lookup q rooms) [])) e)
      | inr other ↦ rw (found, other) refl
    ]

members_of-leave_room :
    (key k : RoomKey) (s : Str) (rooms : Rooms)
    → members_of k (leave_room key s rooms)
      ≡ (if key == k then set_remove s (members_of k rooms) else members_of k rooms)
unfolding members_of leave_room
members_of-leave_room key k s rooms = elim (Option-cases (lookup key rooms)) [
  | inl unknown ↦ elim (Bool-cases (key == k)) [
    | inl same ↦
        let e : key ≡ k = (eq_iff key k).0 same in
        ground (arith, unknown, same, ap (λ q. lookup q rooms) (sym e) ∙ unknown, set_remove-nil s)
    | inr other ↦ ground (arith, unknown, other)
  ]
  | inr (members, known) ↦ elim (Bool-cases (key == k)) [
    | inl same ↦
        let e : key ≡ k = (eq_iff key k).0 same in
        let there : lookup k rooms ≡ some members = ap (λ q. lookup q rooms) (sym e) ∙ known in
        elim (Bool-cases (is_empty (set_remove s members))) [
          | inl left ↦ ground (
            arith,
            known,
            there,
            same,
            left,
            lookup-remove key k rooms,
            is_empty-nil (set_remove s members) left,
          )
          | inr stays ↦
              ground
                (arith, known, there, same, stays, lookup-insert key k (set_remove s members) rooms)
        ]
    | inr other ↦ elim (Bool-cases (is_empty (set_remove s members))) [
      | inl left ↦ ground (arith, known, other, left, lookup-remove key k rooms)
      | inr stays ↦
          ground (arith, known, other, stays, lookup-insert key k (set_remove s members) rooms)
    ]
  ]
]

members_of-leave_rooms :
    (k : RoomKey) (s : Str) (rooms : Rooms)
    → IsRooms rooms
    → members_of k (leave_rooms s rooms) ≡ set_remove s (members_of k rooms)
unfolding members_of leave_rooms IsRooms lookup
members_of-leave_rooms k s [] h = sym (set_remove-nil s)
members_of-leave_rooms k s ((key, members) ∷ rooms) (fresh, full, h) =
    let later = members_of-leave_rooms k s rooms h in
    elim (Bool-cases (key == k)) [
      | inl same ↦
          let e : key ≡ k = (eq_iff key k).0 same in
          let gone : lookup k (leave_rooms s rooms) ≡ none =
            lookup-leave_rooms s k rooms (ap (λ q. lookup q rooms) (sym e) ∙ fresh) in
          elim (Bool-cases (is_empty (set_remove s members))) [
            | inl left ↦ ground (arith, same, left, gone, is_empty-nil (set_remove s members) left)
            | inr stays ↦ ground (arith, same, stays)
          ]
      | inr other ↦ elim (Bool-cases (is_empty (set_remove s members))) [
        | inl left ↦ ground (arith, other, left, later)
        | inr stays ↦ ground (arith, other, stays, later)
      ]
    ]

module _ {T : Type 0} where
  -- What a call makes of the members of a room.
  unfoldable pub effect : AdapterCall T → RoomKey → List Str → List Str
  effect (join namespace room s) k set = if (namespace, room) == k then set_insert s set else set
  effect (leave namespace room s) k set = if (namespace, room) == k then set_remove s set else set
  effect (leave_all s) k set = set_remove s set
  effect call k set = set

  -- What it makes of the channel of a socket.
  unfoldable pub sender_effect : AdapterCall T → Str → Option T → Option T
  sender_effect (register_sender s tx) t o = if s == t then some tx else o
  sender_effect (unregister_sender s) t o = if s == t then none else o
  sender_effect call t o = o

  pub call_rooms-effect :
      (call : AdapterCall T) (m : RoomManager T) (k : RoomKey)
      → IsRooms m.rooms
      → members_of k (call_rooms call m).rooms ≡ effect call k (members_of k m.rooms)
  unfolding call_rooms effect Rooms.join Rooms.leave Rooms.leave_all Rooms.register_sender
      Rooms.unregister_sender
  call_rooms-effect (join namespace room s) m k h =
      members_of-join_room (namespace, room) k s m.rooms
  call_rooms-effect (leave namespace room s) m k h =
      members_of-leave_room (namespace, room) k s m.rooms
  call_rooms-effect (leave_all s) m k h = members_of-leave_rooms k s m.rooms h
  call_rooms-effect (register_sender s tx) m k h = refl
  call_rooms-effect (unregister_sender s) m k h = refl

  pub call_rooms-sender_effect :
      (call : AdapterCall T) (m : RoomManager T) (t : Str)
      → lookup t (call_rooms call m).senders ≡ sender_effect call t (lookup t m.senders)
  unfolding call_rooms sender_effect Rooms.join Rooms.leave Rooms.leave_all Rooms.register_sender
      Rooms.unregister_sender
  call_rooms-sender_effect (register_sender s tx) m t = lookup-insert s t tx m.senders
  call_rooms-sender_effect (unregister_sender s) m t = lookup-remove s t m.senders
  call_rooms-sender_effect (join namespace room s) m t = refl
  call_rooms-sender_effect (leave namespace room s) m t = refl
  call_rooms-sender_effect (leave_all s) m t = refl

  pub call_rooms-IsRooms :
      (call : AdapterCall T) (m : RoomManager T)
      → IsRooms m.rooms
      → IsRooms (call_rooms call m).rooms
  unfolding call_rooms Rooms.join Rooms.leave Rooms.leave_all Rooms.register_sender
      Rooms.unregister_sender
  call_rooms-IsRooms (join namespace room s) m h = join_room-IsRooms (namespace, room) s m.rooms h
  call_rooms-IsRooms (leave namespace room s) m h = leave_room-IsRooms (namespace, room) s m.rooms h
  call_rooms-IsRooms (leave_all s) m h = leave_rooms-IsRooms s m.rooms h
  call_rooms-IsRooms (register_sender s tx) m h = h
  call_rooms-IsRooms (unregister_sender s) m h = h
