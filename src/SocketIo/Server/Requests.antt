-- ===== src/SocketIo/Server/Requests.antt =====
-- Requests and messages that end nowhere or badly.
use rpress.Common.{
  ℕ, ◌+◌, ◌-◌, Bool, true, false, none, some, List, ◌∷◌, Str, codes, lookup, is_some, ltb, ◌==◌,
  nat_eq, list_eq, ◌≡◌, refl, ap, ◌∙◌, inl, inr, Bool-cases,
}
use rpress.SocketIo.EngineIo
use rpress.SocketIo.EngineIo.{EioPacket, message}
use rpress.SocketIo.Packet.{SioPacketType, as_char, is_binary}
use rpress.SocketIo.Packet.Decode.{is_first_byte}
use rpress.SocketIo.Packet.Panics.{decode-panicked}
use rpress.SocketIo.Query.{EioQueryParams, parse, is_polling, is_websocket}
use rpress.SocketIo.Sessions.{EioSession, is_valid}
use rpress.SocketIo.Server.{Socket, Io, World}
use rpress.SocketIo.Server.Handle.{process_incoming_eio_packet, process_decoded, handle_disconnect}
use rpress.SocketIo.Server.Http.{
  is_version, handle_polling_get, handle_polling_post, handle_polling, handle_allowed,
  handle_params, handle_sio_request,
}
use rpress.SocketIo.Server.Loops.{
  text_message, Message, panics, on_tick, on_message, on_ws_packet, went_on, after_message,
  read_messages,
}
use rpress.SocketIo.Server.Cleanup.{IsQuiet, handle_disconnect-ends}

module _ {V N : Type 0} (world : World V N) where
  handle_polling_get-unknown :
      (sid : Str) (timed_out : Bool) (io : Io V N)
      → lookup sid io.session_store.sessions ≡ none
      → (handle_polling_get sid timed_out io).1 ≡ io
  unfolding handle_polling_get
  handle_polling_get-unknown sid timed_out io unknown = rw (unknown, handle_polling_get) refl

  handle_polling_post-unknown :
      (sid body : Str) (io : Io V N)
      → lookup sid io.session_store.sessions ≡ none
      → (handle_polling_post world sid body io).1 ≡ io
  unfolding handle_polling_post is_valid
  handle_polling_post-unknown sid body io unknown =
      let invalid : is_valid sid io.session_store ≡ false = ap is_some unknown in rw invalid refl

  handle_polling-unknown :
      (method sid body : Str) (timed_out : Bool) (io : Io V N)
      → lookup sid io.session_store.sessions ≡ none
      → (handle_polling world method (some sid) body timed_out io).1 ≡ io
  unfolding handle_polling
  handle_polling-unknown method sid body timed_out io unknown =
      elim (Bool-cases (method == codes "GET")) [
        | inl get ↦ rw get (handle_polling_get-unknown sid timed_out io unknown)
        | inr other ↦ elim (Bool-cases (method == codes "POST")) [
          | inl post ↦ rw (other, post) (handle_polling_post-unknown sid body io unknown)
          | inr neither ↦ rw (other, neither) refl
        ]
      ]

  handle_allowed-unknown :
      (websocket_only : Bool) (params : EioQueryParams) (method sid body : Str) (timed_out : Bool)
      (io : Io V N)
      → params.sid ≡ some sid
      → lookup sid io.session_store.sessions ≡ none
      → (handle_allowed world websocket_only params method body timed_out io).1 ≡ io
  unfolding handle_allowed
  handle_allowed-unknown true params method sid body timed_out io named unknown = refl
  handle_allowed-unknown false params method sid body timed_out io named unknown =
      ap (λ o. (handle_polling world method o body timed_out io).1) named
      ∙ handle_polling-unknown method sid body timed_out io unknown

  handle_params-unknown :
      (params : EioQueryParams) (method sid body : Str) (has_upgrade_header timed_out : Bool)
      (io : Io V N)
      → params.sid ≡ some sid
      → lookup sid io.session_store.sessions ≡ none
      → (handle_params world params method body has_upgrade_header timed_out io).1 ≡ io
  unfolding handle_params
  handle_params-unknown params method sid body has_upgrade_header timed_out io named unknown =
      elim (Bool-cases (is_version params.eio)) [
        | inr version ↦ rw version refl
        | inl version ↦ elim (Bool-cases (is_websocket params)) [
          | inl websocket ↦ rw (version, websocket) refl
          | inr no_websocket ↦ elim (Bool-cases (is_polling params)) [
            | inr no_polling ↦ rw (version, no_websocket, no_polling) refl
            | inl polling ↦
                rw (version, no_websocket, polling)
                  (handle_allowed-unknown io.config.websocket_only params method sid body timed_out
                    io named unknown)
          ]
        ]
      ]

  -- A request that names a session which the server does not know changes nothing, whatever else is
  -- in its query, its method, its headers and its body.
  pub handle_sio_request-unknown :
      (method query sid body : Str) (has_upgrade_header timed_out : Bool) (io : Io V N)
      → (parse query).sid ≡ some sid
      → lookup sid io.session_store.sessions ≡ none
      → (handle_sio_request world method query body has_upgrade_header timed_out io).1 ≡ io
  unfolding handle_sio_request
  handle_sio_request-unknown method query sid body has_upgrade_header timed_out io named unknown =
      handle_params-unknown (parse query) method sid body has_upgrade_header timed_out io named
        unknown

  -- At the first tick of its heartbeat after a session has been silent for longer than the interval
  -- and the timeout together, the loop of the session ends, the session is gone, and so is each of
  -- its sockets, if the disconnect handlers let no client in.
  pub on_tick-ends :
      IsQuiet world
      → (sid id : Str) (session : EioSession) (s : Socket V) (io : Io V N)
      → lookup sid io.session_store.sessions ≡ some session
      → ltb (io.config.ping_interval + io.config.ping_timeout) (io.clock - session.last_pong) ≡ true
      → lookup id io.sockets ≡ some s
      → (s.engine_sid == sid) ≡ true
      → ((on_tick world sid io).0 ≡ false)
        × (lookup sid (on_tick world sid io).1.session_store.sessions ≡ none)
        × (lookup id (on_tick world sid io).1.sockets ≡ none)
  unfolding on_tick
  on_tick-ends quiet sid id session s io found silent there own =
      let ended : on_tick world sid io ≡ (false, handle_disconnect world sid io) =
        rw (found, on_tick) (rw silent refl) in
      let (gone, left) = handle_disconnect-ends world quiet sid id s io there own in
      rw ended (refl, gone, left)

  on_message-panicked :
      (sid : Str) (t : SioPacketType) (b c : ℕ) (s : Str) (io : Io V N)
      → is_binary t ≡ false
      → is_first_byte b ≡ true
      → (b == b',') ≡ false
      → is_first_byte c ≡ false
      → on_message world sid (text_message (b'4' ∷ as_char t ∷ b'/' ∷ b ∷ c ∷ b',' ∷ s)) io
        ≡ (panics, io)
  unfolding on_message EngineIo.decode EngineIo.from_byte on_ws_packet process_incoming_eio_packet
      went_on
  on_message-panicked sid t b c s io text first no_comma inside =
      ap (λ d. went_on (process_decoded world sid d io))
        (decode-panicked world.json t b c s text first no_comma inside)

  -- A client that sends over its WebSocket a packet without attachments for a namespace of one
  -- character of two bytes ends the reader by a panic: nothing that it sends later is read, and
  -- neither its session nor its sockets are cleaned up then.
  pub read_messages-panicked :
      (sid : Str) (t : SioPacketType) (b c : ℕ) (s : Str) (msgs : List Message) (io : Io V N)
      → is_binary t ≡ false
      → is_first_byte b ≡ true
      → (b == b',') ≡ false
      → is_first_byte c ≡ false
      → read_messages world sid
          (text_message (b'4' ∷ as_char t ∷ b'/' ∷ b ∷ c ∷ b',' ∷ s) ∷ msgs)
          io
        ≡ io
  unfolding read_messages
  read_messages-panicked sid t b c s msgs io text first no_comma inside =
      ap (λ r. after_message world sid r.0 r.1 (read_messages world sid msgs r.1))
        (on_message-panicked sid t b c s io text first no_comma inside)
