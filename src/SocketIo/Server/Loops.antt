-- ===== src/SocketIo/Server/Loops.antt =====
-- engine/src/core/socketio/handler.rs: the loop of a session, with its heartbeat, and the messages
-- of a WebSocket.
use rpress.Common.{
  ◌+◌, ◌-◌, Bool, true, false, not, ◌&&◌, Option, none, some, List, [], ◌∷◌, map, Str, codes,
  lookup, ltb, is_empty, ◌==◌, nat_eq, list_eq, if◌then◌else◌,
}
use rpress.SocketIo.EngineIo.{
  EioPacket, EioPacketType, ping, pong, upgrade, new_packet, encode, decode,
}
use rpress.SocketIo.Sessions.{
  TransportType, polling, web_socket, upgrading, is_valid, get_handshake_data, set_transport,
  push_packet, change_session,
}
use rpress.SocketIo.Server.{Io, World, send}
use rpress.SocketIo.Server.Handle.{with_sessions, handle_disconnect, process_incoming_eio_packet}
use rpress.SocketIo.Server.Http.{start_session, open_text}

-- What a WebSocket gives.
pub data Message : Type 0 where
  text_message : Str → Message
  binary_message : Message
  close_message : Message
  ping_message : Message
  other_message : Message

-- How the reader of a WebSocket goes on.
pub data Next : Type 0 where
  goes_on : Next
  stops : Next
  panics : Next

unfoldable pub is_ping : EioPacketType → Bool
is_ping ping = true
is_ping _ = false

unfoldable pub is_upgrade : EioPacketType → Bool
is_upgrade upgrade = true
is_upgrade _ = false

unfoldable pub is_probe : Option Str → Bool
is_probe none = false
is_probe (some content) = content == codes "probe"

module _ {V N : Type 0} where
  unfoldable pub send_ping : Str → TransportType → Str → Io V N → Io V N
  send_ping sid polling tx io = with_sessions (push_packet (new_packet ping none) sid) io
  send_ping sid web_socket tx io = send tx (new_packet ping none) io
  send_ping sid upgrading tx io = send tx (new_packet ping none) io

  -- A packet of the session's channel is put into its buffer, whatever its transport.
  unfoldable pub on_packet : Str → EioPacket → Io V N → Bool × Io V N
  on_packet sid pkt io = elim (lookup sid io.session_store.sessions) [
    | none ↦ (false, io)
    | some session ↦ (true, with_sessions (push_packet pkt sid) io)
  ]

  -- The texts that the writer takes when it is notified.
  unfoldable pub write_packets : Str → Io V N → List Str × Io V N
  write_packets sid io = elim (lookup sid io.session_store.sessions) [
    | none ↦ ([], io)
    | some session ↦ (
      map encode session.poll_buffer,
      with_sessions (change_session (λ s. record s { poll_buffer = []; poll_notify = false }) sid)
          io,
    )
  ]

  unfoldable pub went_on : Bool × Io V N → Next × Io V N
  went_on (finished, io) = (if finished then goes_on else panics, io)

module _ {V N : Type 0} (world : World V N) where
  -- A tick of the heartbeat: whether the loop goes on, and the state.
  unfoldable pub on_tick : Str → Io V N → Bool × Io V N
  unfolding send_ping
  on_tick sid io = elim (lookup sid io.session_store.sessions) [
    | none ↦ (false, io)
    | some session ↦
        if ltb (io.config.ping_interval + io.config.ping_timeout) (io.clock - session.last_pong)
        then (false, handle_disconnect world sid io)
        else (true, send_ping sid session.transport session.tx io)
  ]

  -- The session of a WebSocket, and the packet that opens it.
  unfoldable pub open_session : Io V N → (Str × Option Str) × Io V N
  open_session io =
      let (sid, io') = start_session world io in
      let io'' = with_sessions (set_transport sid web_socket) io' in
      elim (get_handshake_data sid io''.session_store) [
        | none ↦ ((sid, none), io'')
        | some handshake ↦ ((sid, some (open_text world handshake)), io'')
      ]

  unfoldable pub open_websocket : Str → Io V N → (Str × Option Str) × Io V N
  unfolding open_session
  open_websocket sid io =
      if not (is_empty sid) && is_valid sid io.session_store
      then ((sid, none), io)
      else open_session io

  unfoldable pub on_ws_packet : Str → EioPacket → Io V N → Next × Io V N
  unfolding is_ping is_upgrade is_probe went_on
  on_ws_packet sid pkt io =
      if is_ping pkt.packet_type && is_probe pkt.content
      then (goes_on, with_sessions (push_packet (new_packet pong (some (codes "probe"))) sid) io)
      else if is_upgrade pkt.packet_type
      then (goes_on, with_sessions (set_transport sid web_socket) io)
      else went_on (process_incoming_eio_packet world sid pkt io)

  unfoldable pub on_message : Str → Message → Io V N → Next × Io V N
  unfolding on_ws_packet
  on_message sid (text_message text) io = elim (decode text) [
    | none ↦ (goes_on, io)
    | some pkt ↦ on_ws_packet sid pkt io
  ]
  on_message sid binary_message io = (goes_on, io)
  on_message sid close_message io = (stops, io)
  on_message sid ping_message io =
      (goes_on, with_sessions (push_packet (new_packet pong none) sid) io)
  on_message sid other_message io = (goes_on, io)

  -- The messages up to one that stops the reader, and the end of the connection. Behind a panic
  -- nothing is cleaned up.
  unfoldable pub after_message : Str → Next → Io V N → Io V N → Io V N
  after_message sid goes_on io later = later
  after_message sid stops io later = handle_disconnect world sid io
  after_message sid panics io later = io

  unfoldable pub read_messages : Str → List Message → Io V N → Io V N
  unfolding on_message after_message
  read_messages sid [] io = handle_disconnect world sid io
  read_messages sid (msg ∷ msgs) io =
      let (next, io') = on_message sid msg io in
      let later = read_messages sid msgs io' in after_message sid next io' later
