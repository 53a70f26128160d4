-- ===== src/SocketIo/Server/Handle.antt =====
-- engine/src/core/socketio/handler.rs: what the server does with the packets of its clients. A
-- handler holds no lock while it runs another one; here each runs to its end. `decode` of a packet
-- may panic, which ends the request that brought it: the state is then what it was before.

use rpress.Common.{
  ℕ, ◌+◌, Bool, true, false, ◌&&◌, Option, none, some, List, [], ◌∷◌, Str, codes, HashMap, lookup,
  insert, remove, unwrap_or, ◌==◌, nat_eq, list_eq, if◌then◌else◌, ◌⊎◌, inl, inr,
}
use rpress.SocketIo.EngineIo.{EioPacket, EioPacketType, close, pong, message, upgrade}
use rpress.SocketIo.Packet
use rpress.SocketIo.Packet.{
  SioPacket, SioPacketType, connect_type, disconnect_type, event_type, ack_type, binary_event_type,
  binary_ack_type, event_name, event_data, connect_error, connect_ok,
}
use rpress.SocketIo.Packet.Decode.{Decoded, panicked, rejected, decoded, decode}
use rpress.SocketIo.Rooms
use rpress.SocketIo.Sessions.{EioSessionStore, web_socket, mark_pong, set_transport, remove_session}
use rpress.SocketIo.Server.{
  Socket, NamespaceConfig, SocketHandlers, Io, World, new_socket, send, leave_all_rooms,
}
use rpress.SocketIo.Server.Emit.{message_packet, send_sio_packet}

-- The socket of a session in a namespace.
unfoldable pub find_socket : {V : Type 0} → Str → Str → HashMap Str (Socket V) → Option Str
find_socket engine_sid namespace [] = none
find_socket engine_sid namespace ((id, socket) ∷ sockets) =
    if (socket.engine_sid == engine_sid) && (socket.namespace == namespace)
    then some id
    else find_socket engine_sid namespace sockets

-- The sockets of a session.
unfoldable pub sockets_of : {V : Type 0} → Str → HashMap Str (Socket V) → List Str
sockets_of engine_sid [] = []
sockets_of engine_sid ((id, socket) ∷ sockets) =
    let rest = sockets_of engine_sid sockets in
    if socket.engine_sid == engine_sid then id ∷ rest else rest

unfoldable pub disconnect_handler_of : {N : Type 0} → Option (SocketHandlers N) → Option N
disconnect_handler_of none = none
disconnect_handler_of (some h) = h.disconnect_handler

unfoldable pub event_handler_of : {N : Type 0} → Str → Option (SocketHandlers N) → Option N
event_handler_of event none = none
event_handler_of event (some h) = lookup event h.events

unfoldable pub connection_handler_of : {N : Type 0} → Option (NamespaceConfig N) → Option N
connection_handler_of none = none
connection_handler_of (some ns) = ns.connection_handler

module _ {V N : Type 0} where
  -- The maps without a socket: the adapter's, its channel and its handlers.
  unfoldable pub forget_socket : Str → Io V N → Io V N
  forget_socket socket_id io = record io {
    adapter = Rooms.unregister_sender socket_id (Rooms.leave_all socket_id io.adapter);
    socket_handlers = remove socket_id io.socket_handlers;
  }

  unfoldable pub remove_socket : Str → Io V N → Io V N
  remove_socket socket_id io = record io { sockets = remove socket_id io.sockets }

  -- The sessions after an operation of their store.
  unfoldable pub with_sessions : (EioSessionStore → EioSessionStore) → Io V N → Io V N
  with_sessions f io = record io { session_store = f io.session_store }

module _ {V N : Type 0} (world : World V N) where
  unfoldable pub run_disconnect : Option N → Socket V → Io V N → Io V N
  run_disconnect none socket io = io
  run_disconnect (some handler) socket io = world.on_disconnect handler socket io

  unfoldable pub leave_socket : Option N → Option (Socket V) → Io V N → Io V N
  unfolding run_disconnect
  leave_socket handler none io = io
  leave_socket handler (some socket) io = leave_all_rooms socket (run_disconnect handler socket io)

  unfoldable pub cleanup_socket : Str → Io V N → Io V N
  unfolding disconnect_handler_of remove_socket leave_socket forget_socket
  cleanup_socket socket_id io =
      let handler = disconnect_handler_of (lookup socket_id io.socket_handlers) in
      forget_socket socket_id
        (leave_socket handler (lookup socket_id io.sockets) (remove_socket socket_id io))

  unfoldable pub cleanup_sockets : List Str → Io V N → Io V N
  unfolding cleanup_socket
  cleanup_sockets [] io = io
  cleanup_sockets (socket_id ∷ socket_ids) io =
      cleanup_sockets socket_ids (cleanup_socket socket_id io)

  unfoldable pub handle_disconnect : Str → Io V N → Io V N
  unfolding sockets_of cleanup_sockets with_sessions
  handle_disconnect engine_sid io =
      with_sessions (remove_session engine_sid)
        (cleanup_sockets (sockets_of engine_sid io.sockets) io)

  unfoldable pub handle_sio_disconnect : Str → Str → Io V N → Io V N
  unfolding find_socket cleanup_socket
  handle_sio_disconnect engine_sid namespace io =
      elim (find_socket engine_sid namespace io.sockets) [
        | none ↦ io
        | some socket_id ↦ cleanup_socket socket_id io
      ]

  -- The answer to an event, if its client asked for one and the handler gave one.
  unfoldable pub acknowledge : Socket V → Str → Option ℕ → Option V × Io V N → Io V N
  acknowledge socket namespace (some ack_id) (some ack_data, io) =
      send_sio_packet world socket (Packet.ack world.json namespace ack_id ack_data) io
  acknowledge socket namespace _ (_, io) = io

  unfoldable pub run_event :
      Option N → Option (Socket V) → Str → List V → Option ℕ → Io V N → Io V N
  unfolding acknowledge
  run_event (some handler) (some socket) namespace content ack_id io =
      acknowledge socket namespace ack_id (world.on_event handler socket content io)
  run_event _ _ namespace content ack_id io = io

  unfoldable pub handle_sio_event : Str → Str → Str → List V → Option ℕ → Io V N → Io V N
  unfolding find_socket event_handler_of run_event
  handle_sio_event engine_sid namespace event content ack_id io =
      elim (find_socket engine_sid namespace io.sockets) [
        | none ↦ io
        | some socket_id ↦
            run_event (event_handler_of event (lookup socket_id io.socket_handlers))
              (lookup socket_id io.sockets) namespace content ack_id io
      ]

  -- The claims of a client, or the message that it is refused with.
  unfoldable pub authorize : Option (NamespaceConfig N) → Option V → V ⊎ Str
  authorize none auth_data = inr (codes "Invalid namespace")
  authorize (some ns) auth_data = elim ns.auth_handler [
    | none ↦ inl world.json.null
    | some handler ↦ world.authenticate handler (unwrap_or auth_data world.json.null)
  ]

  unfoldable pub run_connection : Option N → Socket V → Io V N → Io V N
  run_connection none socket io = io
  run_connection (some handler) socket io = world.on_connection handler socket io

  -- A socket whose client is let in, before its connection handler runs.
  unfoldable pub open_socket : Str → Str → Str → V → Io V N → Socket V × Io V N
  open_socket engine_sid namespace eio_tx claims io =
      let socket_id = world.uuid io.drawn in
      let (socket, io') = new_socket socket_id engine_sid namespace eio_tx claims io in
      (
        socket,
        send eio_tx (message_packet world.json (connect_ok world.json namespace socket_id))
            (record io' {
              adapter =
                  Rooms.join namespace socket_id socket_id
                    (Rooms.register_sender socket_id eio_tx io'.adapter);
              sockets = insert socket_id socket io'.sockets;
              drawn = io'.drawn + 1;
            }),
      )

  unfoldable pub admit : Str → Str → Str → V ⊎ Str → Io V N → Io V N
  unfolding open_socket run_connection connection_handler_of
  admit engine_sid namespace eio_tx (inr msg) io =
      send eio_tx (message_packet world.json (connect_error world.json namespace msg)) io
  admit engine_sid namespace eio_tx (inl claims) io =
      let (socket, io') = open_socket engine_sid namespace eio_tx claims io in
      run_connection (connection_handler_of (lookup namespace io'.namespaces)) socket io'

  unfoldable pub handle_sio_connect : Str → Str → Option V → Io V N → Io V N
  unfolding authorize admit
  handle_sio_connect engine_sid namespace auth_data io =
      elim (lookup engine_sid io.session_store.sessions) [
        | none ↦ io
        | some session ↦
            admit engine_sid namespace session.tx
              (authorize (lookup namespace io.namespaces) auth_data) io
      ]

  unfoldable pub process_event : Str → SioPacket V → Option Str → Option (List V) → Io V N → Io V N
  unfolding handle_sio_event
  process_event engine_sid pkt (some event) (some content) io =
      handle_sio_event engine_sid pkt.namespace event content pkt.id io
  process_event engine_sid pkt _ _ io = io

  unfoldable pub process_sio_packet : Str → SioPacket V → SioPacketType → Io V N → Io V N
  unfolding handle_sio_connect handle_sio_disconnect process_event
  process_sio_packet engine_sid pkt connect_type io =
      handle_sio_connect engine_sid pkt.namespace pkt.content io
  process_sio_packet engine_sid pkt disconnect_type io =
      handle_sio_disconnect engine_sid pkt.namespace io
  process_sio_packet engine_sid pkt event_type io =
      process_event engine_sid pkt (event_name world.json pkt) (event_data world.json pkt) io
  process_sio_packet engine_sid pkt binary_event_type io =
      process_event engine_sid pkt (event_name world.json pkt) (event_data world.json pkt) io
  process_sio_packet engine_sid pkt binary_ack_type io =
      process_event engine_sid pkt (event_name world.json pkt) (event_data world.json pkt) io
  process_sio_packet engine_sid pkt _ io = io

  -- Whether it ran to its end, and the state.
  unfoldable pub process_decoded : Str → Decoded V → Io V N → Bool × Io V N
  unfolding process_sio_packet
  process_decoded sid panicked io = (false, io)
  process_decoded sid rejected io = (true, io)
  process_decoded sid (decoded pkt) io = (true, process_sio_packet sid pkt pkt.packet_type io)

  unfoldable pub process_eio : Str → EioPacketType → Option Str → Io V N → Bool × Io V N
  unfolding with_sessions process_decoded handle_disconnect
  process_eio sid pong content io = (true, with_sessions (mark_pong io.clock sid) io)
  process_eio sid message none io = (true, io)
  process_eio sid message (some text) io = process_decoded sid (decode world.json text) io
  process_eio sid close content io = (true, handle_disconnect sid io)
  process_eio sid upgrade content io = (true, with_sessions (set_transport sid web_socket) io)
  process_eio sid _ content io = (true, io)

  unfoldable pub process_incoming_eio_packet : Str → EioPacket → Io V N → Bool × Io V N
  unfolding process_eio
  process_incoming_eio_packet sid pkt io = process_eio sid pkt.packet_type pkt.content io

  -- The packets of a request, up to one that panics.
  unfoldable pub process_packets : Str → List EioPacket → Io V N → Bool × Io V N
  unfolding process_incoming_eio_packet
  process_packets sid [] io = (true, io)
  process_packets sid (pkt ∷ pkts) io =
      let (finished, io') = process_incoming_eio_packet sid pkt io in
      let rest = process_packets sid pkts io' in if finished then rest else (false, io')
