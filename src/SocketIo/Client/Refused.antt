-- ===== src/SocketIo/Client/Refused.antt =====
-- A client that asks to be let in, the server that refuses it, and the client that is told why.
use rpress.Common.{
  none, Option, some, List, [], ◌∷◌, ◌++◌, Str, codes, lookup, nat_eq, list_eq, true, ◌≡◌, refl, ap,
  ◌∙◌, inr,
}
use rpress.SocketIo.Json.{Json, IsJson, HasFields}
use rpress.SocketIo.EngineIo.{EioPacket, new_packet}
use rpress.SocketIo.Packet.{connect, connect_error}
use rpress.SocketIo.Packet.RoundTrip.{IsEncodable, decode-encode_packet}
use rpress.SocketIo.Sessions.{EioSession, EioHandshake}
use rpress.SocketIo.Server.{Io, World}
use rpress.SocketIo.Server.Emit.{message_packet}
use rpress.SocketIo.Server.Handle.{authorize, process_incoming_eio_packet}
use rpress.SocketIo.Server.Connects.{handle_sio_connect-refused}
use rpress.SocketIo.Client.Connect.{
  refused, text_field, judge_decoded, judge_packet, wait_for_connect, connect_answered,
  connect_inner,
}
use rpress.SocketIo.Client.Admitted.{process-connect}
use rpress.SocketIo.Client.Transport.{ok}

module _ {V : Type 0} (json : Json V) where
  -- The first answer that refuses the client is the one that counts.
  wait_for_connect-connect_error :
      (namespace msg : Str) (pkts : List EioPacket)
      → IsJson json
      → HasFields json
      → IsEncodable json (connect_error json namespace msg)
      → wait_for_connect json (message_packet json (connect_error json namespace msg) ∷ pkts)
        ≡ refused msg
  unfolding wait_for_connect judge_packet judge_decoded text_field message_packet new_packet
      connect_error
  wait_for_connect-connect_error namespace msg pkts h fields encodable =
      rw (decode-encode_packet json (connect_error json namespace msg) encodable)
        (rw (fields.get-object (codes "message") (json.string msg), h.as_str-string msg) refl)

-- A client whom the server refuses, for an unknown namespace or by the authentication of the
-- namespace, is told why, and the server is as it was: on the packet that the client sends, the
-- server only puts one packet on the channel of the client's session; on that packet, whatever
-- comes behind it, the client's wait ends with the server's message, and the client is not
-- connected. This holds if the session is known and both packets can be encoded.
pub connect_inner-refused :
    {V N M : Type 0} (world : World V N) (handshake : EioHandshake) (namespace msg : Str)
    (auth : Option V) (session : EioSession) (io : Io V N) (pkts : List EioPacket)
    → IsJson world.json
    → HasFields world.json
    → IsEncodable world.json (connect namespace auth)
    → IsEncodable world.json (connect_error world.json namespace msg)
    → lookup handshake.sid io.session_store.sessions ≡ some session
    → authorize world (lookup namespace io.namespaces) auth ≡ inr msg
    → let request = message_packet world.json (connect namespace auth) in
      let reply = message_packet world.json (connect_error world.json namespace msg) in
      (process_incoming_eio_packet world handshake.sid request io
        ≡ (true, record io { sent = io.sent ++ (session.tx, reply) ∷ [] }))
      × (wait_for_connect world.json (reply ∷ pkts) ≡ refused msg)
      × (connect_inner world.json {N = M} (ok handshake) namespace auth (reply ∷ pkts) ≡ none)
unfolding connect_inner connect_answered
connect_inner-refused world handshake namespace msg auth session io pkts h fields asks answers found
      denied =
    let told = wait_for_connect-connect_error world.json namespace msg pkts h fields answers in
    (
      process-connect world handshake.sid namespace auth io asks
          ∙ ap (λ s. (true, s))
              (handle_sio_connect-refused world handshake.sid namespace msg auth session io found
                denied),
      told,
      rw told refl,
    )
