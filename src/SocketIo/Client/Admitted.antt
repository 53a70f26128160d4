-- ===== src/SocketIo/Client/Admitted.antt =====
-- A client that asks to be let in, the server that lets it in, and the client that is told so.
use rpress.Common.{
  true, Option, some, List, [], ◌∷◌, ◌++◌, Str, codes, lookup, nat_eq, list_eq, ◌≡◌, refl, ap, ◌∙◌,
  inl,
}
use rpress.SocketIo.Json.{Json, IsJson, HasFields}
use rpress.SocketIo.EngineIo.{EioPacket, new_packet}
use rpress.SocketIo.Packet.{connect, connect_ok}
use rpress.SocketIo.Packet.RoundTrip.{IsEncodable, decode-encode_packet}
use rpress.SocketIo.Sessions.{EioSession, EioHandshake}
use rpress.SocketIo.Server.{Socket, Io, World}
use rpress.SocketIo.Server.Emit.{message_packet}
use rpress.SocketIo.Server.Handle.{
  authorize, run_connection, connection_handler_of, process_sio_packet, process_decoded,
  process_incoming_eio_packet, handle_sio_connect,
}
use rpress.SocketIo.Server.Connects.{handle_sio_connect-admitted}
use rpress.SocketIo.Client.{connected_client}
use rpress.SocketIo.Client.Connect.{
  text_field, judge_decoded, judge_packet, wait_for_connect, connect_answered, connect_inner,
}
use rpress.SocketIo.Client.Transport.{ok}

module _ {V N : Type 0} (json : Json V) where
  -- The first answer that lets the client in is the one that counts.
  connect_inner-connect_ok :
      (handshake : EioHandshake) (namespace sid : Str) (auth : Option V) (pkts : List EioPacket)
      → IsJson json
      → HasFields json
      → IsEncodable json (connect_ok json namespace sid)
      → connect_inner json {N = N}
          (ok handshake)
          namespace
          auth
          (message_packet json (connect_ok json namespace sid) ∷ pkts)
        ≡ some (
          message_packet json (connect namespace auth),
          connected_client json sid handshake.sid namespace,
        )
  unfolding connect_inner wait_for_connect judge_packet judge_decoded connect_answered text_field
      message_packet new_packet connect_ok
  connect_inner-connect_ok handshake namespace sid auth pkts h fields encodable =
      rw (decode-encode_packet json (connect_ok json namespace sid) encodable)
        (rw (fields.get-object (codes "sid") (json.string sid), h.as_str-string sid) refl)

module _ {V N : Type 0} (world : World V N) where
  pub process-connect :
      (sid namespace : Str) (auth : Option V) (io : Io V N)
      → IsEncodable world.json (connect namespace auth)
      → process_incoming_eio_packet world sid
          (message_packet world.json (connect namespace auth))
          io
        ≡ (true, handle_sio_connect world sid namespace auth io)
  unfolding process_incoming_eio_packet process_decoded process_sio_packet message_packet new_packet
      connect
  process-connect sid namespace auth io encodable =
      ap (λ d. process_decoded world sid d io)
        (decode-encode_packet world.json (connect namespace auth) encodable)

-- A client whom the server lets in and the server agree on who it is: on the packet that the client
-- sends, the server makes a socket with a fresh identifier for the client's session, which the
-- connection handler of the namespace gets, and puts one packet on the session's channel; on that
-- packet, whatever comes behind it, the client is connected, with this identifier, its session and
-- its namespace. This holds if the session is known, the namespace lets the client in, and both
-- packets can be encoded.
pub connect_inner-admitted :
    {V N M : Type 0} (world : World V N) (handshake : EioHandshake) (namespace : Str)
    (auth : Option V) (claims : V) (session : EioSession) (io : Io V N) (pkts : List EioPacket)
    → IsJson world.json
    → HasFields world.json
    → IsEncodable world.json (connect namespace auth)
    → IsEncodable world.json (connect_ok world.json namespace (world.uuid io.drawn))
    → lookup handshake.sid io.session_store.sessions ≡ some session
    → authorize world (lookup namespace io.namespaces) auth ≡ inl claims
    → let id = world.uuid io.drawn in
      let request = message_packet world.json (connect namespace auth) in
      let reply = message_packet world.json (connect_ok world.json namespace id) in
      (socket : Socket V) × (io' : Io V N) × (process_incoming_eio_packet world handshake.sid
          request io
        ≡ (
          true,
          run_connection world (connection_handler_of (lookup namespace io.namespaces)) socket io',
        ))
      × (lookup id io'.sockets ≡ some socket)
      × (socket.engine_sid ≡ handshake.sid)
      × (io'.sent ≡ io.sent ++ (session.tx, reply) ∷ [])
      × (connect_inner world.json {N = M} (ok handshake) namespace auth (reply ∷ pkts)
          ≡ some (request, connected_client world.json id handshake.sid namespace))
connect_inner-admitted world handshake namespace auth claims session io pkts h fields asks answers
      found authorized =
    let (socket, io', runs_on, is_socket, known, _, _, sent) =
      handle_sio_connect-admitted world handshake.sid namespace claims auth session io found
        authorized in
    let same = ap (λ (s : Socket _). s.id) is_socket in
    (
      socket,
      io',
      process-connect world handshake.sid namespace auth io asks ∙ ap (λ s. (true, s)) runs_on,
      rw (← same) known,
      ap (λ (s : Socket _). s.engine_sid) is_socket,
      sent
          ∙ ap
              (λ i.
                io.sent
                ++ (session.tx, message_packet world.json (connect_ok world.json namespace i)) ∷ [])
              same,
      connect_inner-connect_ok world.json handshake namespace (world.uuid io.drawn) auth pkts h
          fields answers,
    )
