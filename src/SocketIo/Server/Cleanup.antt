-- ===== src/SocketIo/Server/Cleanup.antt =====
-- What is left of sockets that are disconnected.
use rpress.Common.{
  Bool, true, false, Option, none, some, List, [], ◌∷◌, Str, HashMap, lookup, remove, lookup-remove,
  ◌==◌, nat_eq, list_eq, pair_eq, eq_iff, eq_refl, any, ◌≡◌, refl, sym, ap, ◌∙◌, inl, inr,
  Bool-cases, arith,
}
use rpress.SocketIo.Rooms
use rpress.SocketIo.Rooms.{RoomKey, RoomManager}
use rpress.SocketIo.Rooms.Members.{member, IsRooms, member-leave_rooms, leave_rooms-IsRooms}
use rpress.SocketIo.Rooms.Trace.{leave_room-IsRooms}
use rpress.SocketIo.Sessions
use rpress.SocketIo.Server.{Socket, Io, World, rooms_of, leave_each, leave_all_rooms}
use rpress.SocketIo.Server.Handle.{
  sockets_of, disconnect_handler_of, forget_socket, remove_socket, run_disconnect, leave_socket,
  cleanup_socket, cleanup_sockets, handle_disconnect, with_sessions,
}

-- A disconnect handler that may join and leave rooms, send, and register handlers, but that lets no
-- client in.
pub record IsQuiet {V N : Type 0} (world : World V N) : Type 0 where
  pub keeps_rooms :
      (handler : N) (socket : Socket V) (io : Io V N)
      → IsRooms io.adapter.rooms
      → IsRooms (world.on_disconnect handler socket io).adapter.rooms
  pub adds_no_socket :
      (handler : N) (socket : Socket V) (io : Io V N) (id : Str)
      → lookup id io.sockets ≡ none
      → lookup id (world.on_disconnect handler socket io).sockets ≡ none

leave_each-IsRooms :
    {V : Type 0} (socket : Socket V) (rooms : List Str) (adapter : RoomManager Str)
    → IsRooms adapter.rooms
    → IsRooms (leave_each socket rooms adapter).rooms
unfolding leave_each Rooms.leave
leave_each-IsRooms socket [] adapter h = h
leave_each-IsRooms socket (room ∷ rooms) adapter h =
    leave_each-IsRooms socket rooms (Rooms.leave socket.namespace room socket.id adapter)
      (leave_room-IsRooms (socket.namespace, room) socket.id adapter.rooms h)

lookup-remove_same :
    {A : Type 0} (key : Str) (entries : HashMap Str A) → lookup key (remove key entries) ≡ none
lookup-remove_same key entries = lookup-remove key key entries ∙ rw (eq_refl key) refl

lookup-remove-none :
    {A : Type 0} (key k : Str) (entries : HashMap Str A)
    → lookup k entries ≡ none
    → lookup k (remove key entries) ≡ none
lookup-remove-none key k entries h =
    lookup-remove key k entries
    ∙ (elim (Bool-cases (key == k)) [ inl same ↦ rw same refl | inr other ↦ rw other h ])

is_of : {V : Type 0} → Str → Option (Socket V) → Bool
is_of engine_sid none = false
is_of engine_sid (some s) = s.engine_sid == engine_sid

module _ {V N : Type 0} (world : World V N) where
  run_disconnect-keeps :
      IsQuiet world
      → (handler : Option N) (socket : Socket V) (io : Io V N)
      → (IsRooms io.adapter.rooms → IsRooms (run_disconnect world handler socket io).adapter.rooms)
        × ((id : Str)
            → lookup id io.sockets ≡ none
            → lookup id (run_disconnect world handler socket io).sockets ≡ none)
  unfolding run_disconnect
  run_disconnect-keeps quiet none socket io = (λ h. h, λ id h. h)
  run_disconnect-keeps quiet (some handler) socket io = (
    λ h. quiet.keeps_rooms handler socket io h,
    λ id h. quiet.adds_no_socket handler socket io id h,
  )

  leave_socket-keeps :
      IsQuiet world
      → (handler : Option N) (socket : Option (Socket V)) (io : Io V N)
      → (IsRooms io.adapter.rooms → IsRooms (leave_socket world handler socket io).adapter.rooms)
        × ((id : Str)
            → lookup id io.sockets ≡ none
            → lookup id (leave_socket world handler socket io).sockets ≡ none)
  unfolding leave_socket leave_all_rooms
  leave_socket-keeps quiet handler none io = (λ h. h, λ id h. h)
  leave_socket-keeps quiet handler (some socket) io =
      let (rooms, sockets) = run_disconnect-keeps quiet handler socket io in
      (
        λ h.
            leave_each-IsRooms socket (rooms_of socket (run_disconnect world handler socket io))
              (run_disconnect world handler socket io).adapter (rooms h),
        sockets,
      )

  cleanup_socket-keeps :
      IsQuiet world
      → (socket_id : Str) (io : Io V N)
      → (IsRooms io.adapter.rooms → IsRooms (cleanup_socket world socket_id io).adapter.rooms)
        × ((id : Str)
            → lookup id io.sockets ≡ none
            → lookup id (cleanup_socket world socket_id io).sockets ≡ none)
        × (lookup socket_id (cleanup_socket world socket_id io).sockets ≡ none)
  unfolding cleanup_socket forget_socket remove_socket Rooms.leave_all Rooms.unregister_sender
  cleanup_socket-keeps quiet socket_id io =
      let handler = disconnect_handler_of (lookup socket_id io.socket_handlers) in
      let (rooms, sockets) =
        leave_socket-keeps quiet handler (lookup socket_id io.sockets)
          (remove_socket socket_id io) in
      (
        λ h. leave_rooms-IsRooms socket_id _ (rooms h),
        λ id h. sockets id (lookup-remove-none socket_id id io.sockets h),
        sockets socket_id (lookup-remove_same socket_id io.sockets),
      )

  -- A socket that is cleaned up is nowhere left: it is no socket of the server, it is in no room of
  -- any namespace, it has no channel and no handlers, whatever rooms it was in and whatever its
  -- disconnect handler does, if that lets no client in and keeps the rooms well-formed, which they
  -- are before.
  pub cleanup_socket-forgets :
      IsQuiet world
      → (socket_id : Str) (io : Io V N) (k : RoomKey) → IsRooms io.adapter.rooms
      → (lookup socket_id (cleanup_socket world socket_id io).sockets ≡ none)
        × (member k socket_id (cleanup_socket world socket_id io).adapter.rooms ≡ false)
        × (lookup socket_id (cleanup_socket world socket_id io).adapter.senders ≡ none)
        × (lookup socket_id (cleanup_socket world socket_id io).socket_handlers ≡ none)
        × IsRooms (cleanup_socket world socket_id io).adapter.rooms
  unfolding cleanup_socket forget_socket remove_socket Rooms.leave_all Rooms.unregister_sender
  cleanup_socket-forgets quiet socket_id io k h =
      let handler = disconnect_handler_of (lookup socket_id io.socket_handlers) in
      let (rooms, sockets) =
        leave_socket-keeps quiet handler (lookup socket_id io.sockets)
          (remove_socket socket_id io) in
      (
        sockets socket_id (lookup-remove_same socket_id io.sockets),
        member-leave_rooms k socket_id socket_id _ (rooms h) ∙ ground (arith, eq_refl socket_id),
        lookup-remove_same socket_id _,
        lookup-remove_same socket_id _,
        leave_rooms-IsRooms socket_id _ (rooms h),
      )

  -- Who is cleaned up already stays away.
  cleanup_sockets-none :
      IsQuiet world
      → (ids : List Str) (io : Io V N) (id : Str) → lookup id io.sockets ≡ none
      → lookup id (cleanup_sockets world ids io).sockets ≡ none
  unfolding cleanup_sockets
  cleanup_sockets-none quiet [] io id h = h
  cleanup_sockets-none quiet (x ∷ ids) io id h =
      let (_, sockets, _) = cleanup_socket-keeps quiet x io in
      cleanup_sockets-none quiet ids (cleanup_socket world x io) id (sockets id h)

  cleanup_sockets-each :
      IsQuiet world
      → (ids : List Str) (io : Io V N) (id : Str) → any (λ x. x == id) ids ≡ true
      → lookup id (cleanup_sockets world ids io).sockets ≡ none
  unfolding cleanup_sockets
  cleanup_sockets-each quiet [] io id h = absurd (ground (arith, h))
  cleanup_sockets-each quiet (x ∷ ids) io id h =
      let (_, _, gone) = cleanup_socket-keeps quiet x io in
      elim (Bool-cases (x == id)) [
        | inl same ↦
            let e : x ≡ id = (eq_iff x id).0 same in
            cleanup_sockets-none quiet ids (cleanup_socket world x io) id
              (ap (λ k. lookup k (cleanup_socket world x io).sockets) (sym e) ∙ gone)
        | inr other ↦
            cleanup_sockets-each quiet ids (cleanup_socket world x io) id (ground (arith, other, h))
      ]

  sockets_of-lookup :
      (engine_sid id : Str) (sockets : HashMap Str (Socket V)) (s : Socket V)
      → lookup id sockets ≡ some s
      → (s.engine_sid == engine_sid) ≡ true
      → any (λ x. x == id) (sockets_of engine_sid sockets) ≡ true
  unfolding sockets_of lookup is_of
  sockets_of-lookup engine_sid id [] s found own = absurd (ground (arith, found))
  sockets_of-lookup engine_sid id ((at, socket) ∷ sockets) s found own =
      elim (Bool-cases (at == id)) [
        | inl same ↦
            let e : some socket ≡ some s = sym (lookup_first same) ∙ found in
            let mine : (socket.engine_sid == engine_sid) ≡ true = ap (is_of engine_sid) e ∙ own in
            rw (mine, same) refl
        | inr other ↦
            let later =
              sockets_of-lookup engine_sid id sockets s (sym (lookup_later other) ∙ found) own in
            elim (Bool-cases (socket.engine_sid == engine_sid)) [
              | inl mine ↦ rw (mine, other) later
              | inr foreign ↦ rw foreign later
            ]
      ]
    where
      lookup_first : (at == id) ≡ true → lookup id ((at, socket) ∷ sockets) ≡ some socket
      lookup_first same = rw same refl

      lookup_later : (at == id) ≡ false → lookup id ((at, socket) ∷ sockets) ≡ lookup id sockets
      lookup_later other = rw other refl

  -- When a session ends, it is gone from the store, and none of its sockets is left, in whichever
  -- namespaces they were, if the disconnect handlers let no client in.
  pub handle_disconnect-ends :
      IsQuiet world
      → (engine_sid id : Str) (s : Socket V) (io : Io V N) → lookup id io.sockets ≡ some s
      → (s.engine_sid == engine_sid) ≡ true
      → (lookup engine_sid (handle_disconnect world engine_sid io).session_store.sessions ≡ none)
        × (lookup id (handle_disconnect world engine_sid io).sockets ≡ none)
  unfolding handle_disconnect with_sessions Sessions.remove_session
  handle_disconnect-ends quiet engine_sid id s io found own = (
    lookup-remove_same engine_sid
        (cleanup_sockets world (sockets_of engine_sid io.sockets) io).session_store.sessions,
    cleanup_sockets-each quiet (sockets_of engine_sid io.sockets) io id
        (sockets_of-lookup engine_sid id io.sockets s found own),
  )
