-- ===== src/SocketIo/Server.antt =====
-- engine/src/core/socketio/mod.rs and socket.rs: the state of the Socket.IO server with its
-- in-memory adapter, and the sockets. The application's handlers are outside of the program: the
-- state holds names of them (`N`), and `World` says what each does. Packets that are sent are kept
-- in their order, each with the session whose channel takes it.
pub mod Emit
pub mod Handle
pub mod Http
pub mod Loops
pub mod Polling
pub mod Cleanup
pub mod Connects
pub mod Requests
pub mod Setup
pub mod Tests
use rpress.Common.{
  ℕ, ◌+◌, Bool, true, false, Option, none, some, List, [], ◌∷◌, ◌++◌, map, Str, codes, HashMap,
  lookup, insert, remove, unwrap_or, is_empty, ◌==◌, nat_eq, list_eq, if◌then◌else◌, ◌⊎◌,
}
use rpress.SocketIo.Json.{Json}
use rpress.SocketIo.EngineIo
use rpress.SocketIo.EngineIo.{EioPacket, message, new_packet}
use rpress.SocketIo.Packet
use rpress.SocketIo.Packet.{SioPacket}
use rpress.SocketIo.Rooms
use rpress.SocketIo.Rooms.{RoomManager, set_insert, set_remove, broadcast_room, broadcast_namespace}
use rpress.SocketIo.Sessions
use rpress.SocketIo.Sessions.{EioConfig, EioSessionStore, EioHandshake}

-- The rooms of a socket are in the state, since its copies share them.
pub record Socket (V : Type 0) : Type 0 where
  pub id : Str
  pub engine_sid : Str
  pub namespace : Str
  pub eio_tx : Str
  pub auth : V

pub record NamespaceConfig (N : Type 0) : Type 0 where
  pub connection_handler : Option N
  pub auth_handler : Option N

pub record SocketHandlers (N : Type 0) : Type 0 where
  pub events : HashMap Str N
  pub disconnect_handler : Option N

-- `RpressIoInner`, with the sockets' rooms, what was sent, the time, and how many identifiers have
-- been drawn.
pub record Io (V N : Type 0) : Type 0 where
  pub namespaces : HashMap Str (NamespaceConfig N)
  pub session_store : EioSessionStore
  pub adapter : RoomManager Str
  pub socket_handlers : HashMap Str (SocketHandlers N)
  pub sockets : HashMap Str (Socket V)
  pub config : EioConfig
  pub path : Str
  pub rooms : HashMap Str (List Str)
  pub sent : List (Str × EioPacket)
  pub clock : ℕ
  pub drawn : ℕ

-- JSON, identifiers, and the application's handlers. The handler of an authentication gives claims
-- or a message.
pub record World (V N : Type 0) : Type 0 where
  pub json : Json V
  pub handshake_text : EioHandshake → Str
  pub uuid : ℕ → Str
  pub authenticate : N → V → V ⊎ Str
  pub on_connection : N → Socket V → Io V N → Io V N
  pub on_event : N → Socket V → List V → Io V N → Option V × Io V N
  pub on_disconnect : N → Socket V → Io V N → Io V N

unfoldable pub ends_with_slash : Str → Bool
ends_with_slash [] = false
ends_with_slash (c ∷ s) = let rest = ends_with_slash s in if is_empty s then c == b'/' else rest

-- `or_default`
abbrev pub no_config : {N : Type 0} → NamespaceConfig N
no_config = record { connection_handler = none; auth_handler = none }

abbrev pub no_handlers : {N : Type 0} → SocketHandlers N
no_handlers = record { events = []; disconnect_handler = none }

unfoldable pub leave_each : {V : Type 0} → Socket V → List Str → RoomManager Str → RoomManager Str
leave_each socket [] adapter = adapter
leave_each socket (room ∷ rooms) adapter =
    leave_each socket rooms (Rooms.leave socket.namespace room socket.id adapter)

module _ {V N : Type 0} where
  unfoldable pub with_config : EioConfig → Io V N
  with_config config = record {
    namespaces = [];
    session_store = Sessions.new config;
    adapter = Rooms.new;
    socket_handlers = [];
    sockets = [];
    config = config;
    path = codes "/socket.io/";
    rooms = [];
    sent = [];
    clock = 0;
    drawn = 0;
  }

  unfoldable pub set_path : Str → Io V N → Io V N
  unfolding ends_with_slash
  set_path path io = record io { path = if ends_with_slash path then path else path ++ b'/' ∷ [] }

  unfoldable pub set_connection_handler : Str → N → Io V N → Io V N
  set_connection_handler namespace handler io =
      let config = unwrap_or (lookup namespace io.namespaces) no_config in
      record io {
        namespaces =
            insert namespace (record config { connection_handler = some handler }) io.namespaces;
      }

  unfoldable pub use_auth : Str → N → Io V N → Io V N
  use_auth namespace handler io =
      let config = unwrap_or (lookup namespace io.namespaces) no_config in
      record io {
        namespaces = insert namespace (record config { auth_handler = some handler }) io.namespaces;
      }

  unfoldable pub register_event_handler : Str → Str → N → Io V N → Io V N
  register_event_handler socket_id event handler io =
      let handlers = unwrap_or (lookup socket_id io.socket_handlers) no_handlers in
      record io {
        socket_handlers =
            insert socket_id (record handlers { events = insert event handler handlers.events })
              io.socket_handlers;
      }

  unfoldable pub register_disconnect_handler : Str → N → Io V N → Io V N
  register_disconnect_handler socket_id handler io =
      let handlers = unwrap_or (lookup socket_id io.socket_handlers) no_handlers in
      record io {
        socket_handlers =
            insert socket_id (record handlers { disconnect_handler = some handler })
              io.socket_handlers;
      }

  unfoldable pub send : Str → EioPacket → Io V N → Io V N
  send tx pkt io = record io { sent = io.sent ++ (tx, pkt) ∷ [] }

  unfoldable pub send_all : List (Str × EioPacket) → Io V N → Io V N
  send_all sends io = record io { sent = io.sent ++ sends }

  -- `Socket::new`, whose rooms are itself
  unfoldable pub new_socket : Str → Str → Str → Str → V → Io V N → Socket V × Io V N
  new_socket id engine_sid namespace eio_tx auth io = (
    record {
      id = id;
      engine_sid = engine_sid;
      namespace = namespace;
      eio_tx = eio_tx;
      auth = auth;
    },
    record io { rooms = insert id (id ∷ []) io.rooms },
  )

  unfoldable pub rooms_of : Socket V → Io V N → List Str
  rooms_of socket io = unwrap_or (lookup socket.id io.rooms) []

  unfoldable pub join : Socket V → Str → Io V N → Io V N
  unfolding rooms_of
  join socket room io = record io {
    rooms = insert socket.id (set_insert room (rooms_of socket io)) io.rooms;
    adapter = Rooms.join socket.namespace room socket.id io.adapter;
  }

  unfoldable pub leave : Socket V → Str → Io V N → Io V N
  unfolding rooms_of
  leave socket room io = record io {
    rooms = insert socket.id (set_remove room (rooms_of socket io)) io.rooms;
    adapter = Rooms.leave socket.namespace room socket.id io.adapter;
  }

  unfoldable pub leave_all_rooms : Socket V → Io V N → Io V N
  unfolding rooms_of leave_each
  leave_all_rooms socket io = record io {
    rooms = insert socket.id [] io.rooms;
    adapter = leave_each socket (rooms_of socket io) io.adapter;
  }
