-- ===== src/SocketIo/Server/Connects.antt =====
-- Clients that ask to be let in.
use rpress.Common.{
  true, Option, some, List, [], ◌∷◌, ◌++◌, Str, lookup, insert, lookup-insert, nat_eq, list_eq,
  pair_eq, eq_refl, ◌≡◌, refl, ap, ◌∙◌, inl, inr, arith,
}
use rpress.SocketIo.Packet.{connect_ok, connect_error}
use rpress.SocketIo.Rooms
use rpress.SocketIo.Rooms.{RoomKey, RoomManager, join_room}
use rpress.SocketIo.Rooms.Members.{member, member-join_room}
use rpress.SocketIo.Sessions.{EioSession}
use rpress.SocketIo.Server.{Socket, Io, World, new_socket, send}
use rpress.SocketIo.Server.Emit.{message_packet}
use rpress.SocketIo.Server.Handle.{
  authorize, admit, open_socket, run_connection, connection_handler_of, handle_sio_connect,
}

pub lookup-insert_same :
    {A : Type 0} (key : Str) (a : A) (entries : List (Str × A))
    → lookup key (insert key a entries) ≡ some a
lookup-insert_same key a entries = lookup-insert key key a entries ∙ rw (eq_refl key) refl

module _ {V N : Type 0} (world : World V N) where
  -- A client of a session that is refused, for an unknown namespace or by the authentication of the
  -- namespace, changes nothing: one packet with the message is put on the channel of its session.
  pub handle_sio_connect-refused :
      (engine_sid namespace msg : Str) (auth_data : Option V) (session : EioSession) (io : Io V N)
      → lookup engine_sid io.session_store.sessions ≡ some session
      → authorize world (lookup namespace io.namespaces) auth_data ≡ inr msg
      → handle_sio_connect world engine_sid namespace auth_data io ≡ record io {
        sent =
            io.sent
            ++ (session.tx, message_packet world.json (connect_error world.json namespace msg))
              ∷ [];
      }
  unfolding handle_sio_connect send
  handle_sio_connect-refused engine_sid namespace msg auth_data session io found refused =
      rw (found, handle_sio_connect)
        (ap (λ r. admit world engine_sid namespace session.tx r io) refused)

  -- A client of a session that is let in becomes a socket with a fresh identifier: the server knows
  -- it with its session, namespace and claims, its channel is the session's, it is in the room of
  -- its own identifier, and the packet with the identifier is put on the channel. The state with
  -- this is the one that the namespace's connection handler runs on.
  pub handle_sio_connect-admitted :
      (engine_sid namespace : Str) (claims : V) (auth_data : Option V) (session : EioSession)
      (io : Io V N)
      → lookup engine_sid io.session_store.sessions ≡ some session
      → authorize world (lookup namespace io.namespaces) auth_data ≡ inl claims
      → (socket : Socket V) × (io' : Io V N) × (handle_sio_connect world engine_sid namespace
            auth_data io
          ≡ run_connection world
              (connection_handler_of (lookup namespace io.namespaces))
              socket
              io')
        × (socket ≡ record {
          id = world.uuid io.drawn;
          engine_sid = engine_sid;
          namespace = namespace;
          eio_tx = session.tx;
          auth = claims;
        })
        × (lookup socket.id io'.sockets ≡ some socket)
        × (lookup socket.id io'.adapter.senders ≡ some session.tx)
        × (member (namespace, socket.id) socket.id io'.adapter.rooms ≡ true)
        × (io'.sent
            ≡ io.sent
              ++ (session.tx, message_packet world.json (connect_ok world.json namespace socket.id))
                ∷ [])
  unfolding handle_sio_connect open_socket new_socket send Rooms.join Rooms.register_sender
  handle_sio_connect-admitted engine_sid namespace claims auth_data session io found accepted =
      let opened = open_socket world engine_sid namespace session.tx claims io in
      let id = world.uuid io.drawn in
      let key : RoomKey = (namespace, id) in
      (
        opened.0,
        opened.1,
        rw (found, handle_sio_connect)
            (ap (λ r. admit world engine_sid namespace session.tx r io) accepted),
        refl,
        lookup-insert_same id opened.0 io.sockets,
        lookup-insert_same id session.tx io.adapter.senders,
        member-join_room key key id id io.adapter.rooms ∙ ground (arith, eq_refl key, eq_refl id),
        refl,
      )
