-- ===== src/SocketIo/Server/Tests.antt =====
-- A server with one namespace, whose clients are let in, and that answers an event.
use rpress.Common.{
  ℕ, ◌+◌, true, false, none, some, [], ◌∷◌, ◌++◌, map, Str, codes, lookup, runs, ◌≡◌, refl, inl,
  arith, nat_eq, list_eq,
}
use rpress.SocketIo.Sample.{Value, raw, json}
use rpress.SocketIo.EngineIo.{EioPacket, message, decode_polling_payload}
use rpress.SocketIo.EngineIo.RoundTrip.{normal}
use rpress.SocketIo.Packet.{is_binary, connect_type, as_char, connect_ok}
use rpress.SocketIo.Packet.Decode.{is_first_byte}
use rpress.SocketIo.Rooms
use rpress.SocketIo.Rooms.{RoomKey}
use rpress.SocketIo.Rooms.Members.{member, IsRooms}
use rpress.SocketIo.Sessions
use rpress.SocketIo.Sessions.{EioSession, default_config, polling, is_valid, create_session}
use rpress.SocketIo.Server.{
  Socket, Io, World, new_socket, send, with_config, set_connection_handler,
}
use rpress.SocketIo.Server.Emit.{message_packet}
use rpress.SocketIo.Server.Handle.{
  with_sessions, authorize, admit, open_socket, run_connection, connection_handler_of,
  handle_sio_connect, cleanup_socket,
}
use rpress.SocketIo.Server.Http.{plain, handle_polling_get}
use rpress.SocketIo.Server.Loops.{on_tick, read_messages, text_message}
use rpress.SocketIo.Server.Polling.{deliver, handle_polling_get-deliver}
use rpress.SocketIo.Server.Cleanup.{IsQuiet, cleanup_socket-forgets}
use rpress.SocketIo.Server.Connects.{handle_sio_connect-admitted}
use rpress.SocketIo.Server.Requests.{on_tick-ends, read_messages-panicked}

abbrev pub world : World Value ℕ
world = record {
  json = json;
  handshake_text = λ h. codes "{}";
  uuid = λ n. (b'a' + n) ∷ [];
  authenticate = λ n v. inl v;
  on_connection = λ n socket io. io;
  on_event = λ n socket vs io. (some (raw (codes "[]")), io);
  on_disconnect = λ n socket io. io;
}

world-IsQuiet : IsQuiet world
world-IsQuiet = record {
  keeps_rooms = λ handler socket io h. h;
  adds_no_socket = λ handler socket io id h. h;
}

-- The session `s`, in a server with the namespace `/`.
abbrev quiet_io : Io Value ℕ
quiet_io =
    with_sessions (create_session (codes "s") 0)
      (set_connection_handler (codes "/") 7 (with_config default_config))

abbrev session : EioSession
session = record {
  sid = codes "s";
  transport = polling;
  created_at = 0;
  last_pong = 0;
  tx = codes "s";
  poll_notify = false;
  poll_buffer = [];
  closed = false;
}

session_found : lookup (codes "s") quiet_io.session_store.sessions ≡ some session
unfolding runs with_sessions create_session set_connection_handler with_config Sessions.new
session_found = refl

-- With one socket, `a`.
abbrev busy_io : Io Value ℕ
busy_io = handle_sio_connect world (codes "s") (codes "/") none quiet_io

abbrev socket : Socket Value
socket = record {
  id = codes "a";
  engine_sid = codes "s";
  namespace = codes "/";
  eio_tx = codes "s";
  auth = raw (codes "null");
}

socket_found : lookup (codes "a") busy_io.sockets ≡ some socket
unfolding runs with_sessions create_session set_connection_handler with_config Sessions.new
    handle_sio_connect authorize admit open_socket new_socket run_connection connection_handler_of
    send Rooms.join Rooms.register_sender Rooms.join_room Rooms.set_insert Rooms.new
socket_found = refl

busy-IsRooms : IsRooms busy_io.adapter.rooms
unfolding runs with_sessions create_session set_connection_handler with_config Sessions.new
    handle_sio_connect authorize admit open_socket new_socket run_connection connection_handler_of
    send Rooms.join Rooms.register_sender Rooms.join_room Rooms.set_insert Rooms.new IsRooms
busy-IsRooms = (refl, refl, tt)

handle_sio_connect-admitted_example :
    (socket : Socket Value) × (io' : Io Value ℕ) × (handle_sio_connect world
        (codes "s")
        (codes "/")
        none
        quiet_io
      ≡ run_connection world
          (connection_handler_of (lookup (codes "/") quiet_io.namespaces))
          socket
          io')
    × (socket ≡ record {
      id = codes "a";
      engine_sid = codes "s";
      namespace = codes "/";
      eio_tx = session.tx;
      auth = raw (codes "null");
    })
    × (lookup socket.id io'.sockets ≡ some socket)
    × (lookup socket.id io'.adapter.senders ≡ some session.tx)
    × (member (codes "/", socket.id) socket.id io'.adapter.rooms ≡ true)
    × (io'.sent
        ≡ quiet_io.sent
          ++ (session.tx, message_packet json (connect_ok json (codes "/") socket.id)) ∷ [])
unfolding runs with_sessions create_session set_connection_handler with_config Sessions.new
    authorize
handle_sio_connect-admitted_example =
    handle_sio_connect-admitted world (codes "s") (codes "/") (raw (codes "null")) none session
      quiet_io session_found refl

cleanup_socket-forgets_example :
    (lookup (codes "a") (cleanup_socket world (codes "a") busy_io).sockets ≡ none)
    × (member
          (codes "/", codes "a")
          (codes "a")
          (cleanup_socket world (codes "a") busy_io).adapter.rooms
        ≡ false)
    × (lookup (codes "a") (cleanup_socket world (codes "a") busy_io).adapter.senders ≡ none)
    × (lookup (codes "a") (cleanup_socket world (codes "a") busy_io).socket_handlers ≡ none)
    × IsRooms (cleanup_socket world (codes "a") busy_io).adapter.rooms
cleanup_socket-forgets_example =
    cleanup_socket-forgets world world-IsQuiet (codes "a") busy_io (codes "/", codes "a")
      busy-IsRooms

busy_session : lookup (codes "s") busy_io.session_store.sessions ≡ some session
unfolding runs with_sessions create_session set_connection_handler with_config Sessions.new
    handle_sio_connect authorize admit open_socket new_socket run_connection connection_handler_of
    send Rooms.join Rooms.register_sender Rooms.join_room Rooms.set_insert Rooms.new
busy_session = refl

on_tick-ends_example :
    ((on_tick world (codes "s") (record busy_io { clock = 50000 })).0 ≡ false)
    × (lookup
          (codes "s")
          (on_tick world (codes "s") (record busy_io { clock = 50000 })).1.session_store.sessions
        ≡ none)
    × (lookup (codes "a") (on_tick world (codes "s") (record busy_io { clock = 50000 })).1.sockets
        ≡ none)
unfolding runs with_sessions create_session set_connection_handler with_config Sessions.new
    handle_sio_connect authorize admit open_socket new_socket run_connection connection_handler_of
    send Rooms.join Rooms.register_sender Rooms.join_room Rooms.set_insert Rooms.new
on_tick-ends_example =
    on_tick-ends world world-IsQuiet (codes "s") (codes "a") session socket
      (record busy_io { clock = 50000 }) busy_session refl socket_found refl

abbrev pkt : EioPacket
pkt = record { packet_type = message; content = some (codes "hi") }

handle_polling_get-deliver_example :
    (body : Str) × (s' : EioSession) × ((handle_polling_get
        (codes "s")
        false
        (deliver (codes "s") (pkt ∷ pkt ∷ []) quiet_io)).0
      ≡ some (plain body))
    × (decode_polling_payload body ≡ map normal (pkt ∷ pkt ∷ []))
    × (lookup
          (codes "s")
          (handle_polling_get
            (codes "s")
            false
            (deliver (codes "s") (pkt ∷ pkt ∷ []) quiet_io)).1.session_store.sessions
        ≡ some s')
    × (s'.poll_buffer ≡ [])
handle_polling_get-deliver_example =
    handle_polling_get-deliver (codes "s") pkt (pkt ∷ []) false session quiet_io session_found refl
      (omega arith)

read_messages-panicked_example :
    read_messages world
      (codes "s")
      (text_message (b'4' ∷ as_char connect_type ∷ b'/' ∷ 0xc3 ∷ 0xa9 ∷ b',' ∷ []) ∷ [])
      busy_io
    ≡ busy_io
unfolding is_binary is_first_byte
read_messages-panicked_example =
    read_messages-panicked world (codes "s") connect_type 0xc3 0xa9 [] [] busy_io refl refl refl
      refl
