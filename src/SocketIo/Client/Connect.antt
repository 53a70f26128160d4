-- ===== src/SocketIo/Client/Connect.antt =====
-- rpress-client/src/client.rs: how a client waits for the answer to its CONNECT packet, over the
-- packets that the transport gives it in the five seconds that it waits.
use rpress.Common.{Option, none, some, List, [], ◌∷◌, Str, codes, unwrap_or}
use rpress.Common.Options.{◌>>=◌}
use rpress.SocketIo.Json.{Json}
use rpress.SocketIo.EngineIo.{EioPacket, EioPacketType, message}
use rpress.SocketIo.Sessions.{EioHandshake}
use rpress.SocketIo.Server.Emit.{message_packet}
use rpress.SocketIo.Packet.{SioPacket, SioPacketType, connect, connect_type, connect_error_type}
use rpress.SocketIo.Packet.Decode.{Decoded, panicked, rejected, decoded, decode}
use rpress.SocketIo.Client.{SocketIoClient, connected_client}
use rpress.SocketIo.Client.Transport.{Result, ok, err}

-- What comes of the wait: the answer, a refusal with its message, no answer, or a panic.
pub data Answer (V : Type 0) : Type 0 where
  accepted : SioPacket V → Answer V
  refused : Str → Answer V
  no_answer : Answer V
  dies : Answer V

module _ {V : Type 0} (json : Json V) where
  -- A text field of the data.
  unfoldable pub text_field : Str → Option V → Option Str
  text_field key content = do v ← content; field ← json.get key v; json.as_str field

  unfoldable pub judge : SioPacket V → SioPacketType → Answer V → Answer V
  unfolding text_field
  judge sio connect_type later = accepted sio
  judge sio connect_error_type later =
      refused (unwrap_or (text_field (codes "message") sio.content) (codes "unknown error"))
  judge sio _ later = later

  unfoldable pub judge_decoded : Decoded V → Answer V → Answer V
  unfolding judge
  judge_decoded panicked later = dies
  judge_decoded rejected later = later
  judge_decoded (decoded sio) later = judge sio sio.packet_type later

  unfoldable pub judge_packet : EioPacketType → Option Str → Answer V → Answer V
  unfolding judge_decoded
  judge_packet message (some text) later = judge_decoded (decode json text) later
  judge_packet _ _ later = later

  unfoldable pub wait_for_connect : List EioPacket → Answer V
  unfolding judge_packet
  wait_for_connect [] = no_answer
  wait_for_connect (pkt ∷ pkts) = judge_packet pkt.packet_type pkt.content (wait_for_connect pkts)

  -- The client behind the answer, or none where the connection fails.
  unfoldable pub connect_answered :
      {N : Type 0} → Str → Str → Answer V → Option (SocketIoClient V N)
  unfolding text_field
  connect_answered engine_sid namespace (accepted sio) = some (
      connected_client json (unwrap_or (text_field (codes "sid") sio.content) engine_sid) engine_sid
        namespace)
  connect_answered engine_sid namespace _ = none

  -- `connect_inner`, over what the transport's connection gave, with the packet that it sends.
  unfoldable pub connect_inner :
      {N : Type 0}
      → Result EioHandshake
      → Str
      → Option V
      → List EioPacket
      → Option (EioPacket × SocketIoClient V N)
  unfolding connect_answered wait_for_connect
  connect_inner (err e) namespace auth pkts = none
  connect_inner (ok handshake) namespace auth pkts = do
    client ← connect_answered handshake.sid namespace (wait_for_connect pkts)
    some (message_packet json (connect namespace auth), client)
