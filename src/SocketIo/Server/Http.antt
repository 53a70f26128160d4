-- ===== src/SocketIo/Server/Http.antt =====
-- engine/src/core/socketio/handler.rs: the requests of polling clients.
use rpress.Common.{
  ℕ, ◌+◌, Bool, true, false, not, ◌&&◌, Option, none, some, List, [], ◌∷◌, Str, codes, lookup,
  unwrap_or, is_empty, ◌==◌, nat_eq, list_eq, if◌then◌else◌,
}
use rpress.Common.Utf8.{from_utf8_lossy}
use rpress.Types.Status
use rpress.Types.Status.{StatusCode}
use rpress.Payload.{text, with_status, with_content_type}
use rpress.Server.App.{SioHttpResult, response, websocket_upgrade}
use rpress.SocketIo.EngineIo.{
  EioPacket, open_packet, noop, new_packet, encode, encode_polling_payload, decode_polling_payload,
}
use rpress.SocketIo.Query.{EioQueryParams, parse, is_polling, is_websocket}
use rpress.SocketIo.Sessions.{
  EioHandshake, EioSession, create_session, get_handshake_data, is_valid, change_session,
}
use rpress.SocketIo.Server.{Io, World}
use rpress.SocketIo.Server.Handle.{with_sessions, process_packets}

-- A refusal, with its JSON text.
unfoldable pub refuse : Str → SioHttpResult
refuse json =
    response
      (with_content_type (codes "application/json") (with_status Status.bad_request (text json)))

unfoldable pub plain : Str → SioHttpResult
plain body = response (with_content_type (codes "text/plain; charset=UTF-8") (text body))

abbrev pub unknown_session : Str
unknown_session = codes "{\"code\":1,\"message\":\"Session ID unknown\"}"

unfoldable pub is_version : Option ℕ → Bool
is_version none = false
is_version (some n) = n == 4

-- What a polling client reads of the packets that wait.
unfoldable pub polled : List EioPacket → Str
polled packets =
    if is_empty packets then encode (new_packet noop none) else encode_polling_payload packets

-- The packets that a poll takes, and the session that is left. `timed_out` tells that the wait for
-- a notification ran out.
unfoldable pub taken : Bool → EioSession → List EioPacket
taken timed_out s =
    if is_empty s.poll_buffer && timed_out then new_packet noop none ∷ [] else s.poll_buffer

unfoldable pub drained : Bool → EioSession → EioSession
drained timed_out s = record s {
  poll_buffer = [];
  poll_notify = if timed_out then s.poll_notify else false;
}

-- A result, or none where the task panics.
module _ {V N : Type 0} where
  unfoldable pub handle_polling_get : Str → Bool → Io V N → Option SioHttpResult × Io V N
  unfolding refuse plain polled taken drained with_sessions
  handle_polling_get sid timed_out io = elim (lookup sid io.session_store.sessions) [
    | none ↦ (some (refuse unknown_session), io)
    | some session ↦ (
      some (plain (polled (taken timed_out session))),
      with_sessions (change_session (drained timed_out) sid) io,
    )
  ]

  unfoldable pub answer_post : Bool × Io V N → Option SioHttpResult × Io V N
  unfolding plain
  answer_post (finished, io) = (if finished then some (plain (codes "ok")) else none, io)

module _ {V N : Type 0} (world : World V N) where
  -- The text of the packet that opens a session.
  unfoldable pub open_text : EioHandshake → Str
  open_text handshake = encode (new_packet open_packet (some (world.handshake_text handshake)))

  unfoldable pub start_session : Io V N → Str × Io V N
  unfolding with_sessions
  start_session io =
      let sid = world.uuid io.drawn in
      (sid, record (with_sessions (create_session sid io.clock) io) { drawn = io.drawn + 1 })

  unfoldable pub handle_polling_handshake : Io V N → Option SioHttpResult × Io V N
  unfolding start_session open_text plain
  handle_polling_handshake io =
      let (sid, io') = start_session io in
      elim (get_handshake_data sid io'.session_store) [
        | none ↦ (none, io')
        | some handshake ↦ (some (plain (open_text handshake)), io')
      ]

  unfoldable pub handle_polling_post : Str → Str → Io V N → Option SioHttpResult × Io V N
  unfolding answer_post refuse
  handle_polling_post sid body io =
      if not (is_valid sid io.session_store)
      then (some (refuse unknown_session), io)
      else answer_post
          (process_packets world sid (decode_polling_payload (from_utf8_lossy body)) io)

  -- A request of a polling client, by its method and session.
  unfoldable pub handle_polling :
      Str → Option Str → Str → Bool → Io V N → Option SioHttpResult × Io V N
  unfolding handle_polling_handshake handle_polling_get handle_polling_post refuse
  handle_polling method none body timed_out io =
      if method == codes "GET"
      then handle_polling_handshake io
      else if method == codes "POST"
      then (some (refuse unknown_session), io)
      else (some (refuse (codes "{\"code\":2,\"message\":\"Bad handshake method\"}")), io)
  handle_polling method (some sid) body timed_out io =
      if method == codes "GET"
      then handle_polling_get sid timed_out io
      else if method == codes "POST"
      then handle_polling_post sid body io
      else (some (refuse (codes "{\"code\":2,\"message\":\"Bad handshake method\"}")), io)

  -- Polling, unless only WebSockets are allowed.
  unfoldable pub handle_allowed :
      Bool → EioQueryParams → Str → Str → Bool → Io V N → Option SioHttpResult × Io V N
  unfolding refuse handle_polling
  handle_allowed true params method body timed_out io = (
    some (
        refuse (
          codes
            "{\"code\":3,\"message\":\"Polling transport disabled. Use WebSocket: { transports: [\\\"websocket\\\"] }\"}")),
    io,
  )
  handle_allowed false params method body timed_out io =
      handle_polling method params.sid body timed_out io

  unfoldable pub handle_params :
      EioQueryParams → Str → Str → Bool → Bool → Io V N → Option SioHttpResult × Io V N
  unfolding is_version refuse handle_allowed
  handle_params params method body has_upgrade_header timed_out io =
      if not (is_version params.eio)
      then (some (refuse (codes "{\"code\":5,\"message\":\"UNSUPPORTED\"}")), io)
      else if is_websocket params
      then (
        some (
            if has_upgrade_header
            then websocket_upgrade (unwrap_or params.sid [])
            else refuse (codes "{\"code\":3,\"message\":\"BAD_REQUEST\"}")),
        io,
      )
      else if not (is_polling params)
      then (some (refuse (codes "{\"code\":0,\"message\":\"Transport unknown\"}")), io)
      else handle_allowed io.config.websocket_only params method body timed_out io

  -- `timed_out` is how the wait of a polling GET ends.
  unfoldable pub handle_sio_request :
      Str → Str → Str → Bool → Bool → Io V N → Option SioHttpResult × Io V N
  unfolding handle_params
  handle_sio_request method query body has_upgrade_header timed_out io =
      handle_params (parse query) method body has_upgrade_header timed_out io
