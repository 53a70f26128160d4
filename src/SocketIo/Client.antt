-- ===== src/SocketIo/Client.antt =====
-- rpress-client/src/client.rs: the Socket.IO client, over the transport's channels. Its packets are
-- those of the server: rpress-client/src/socket_io.rs has the same code for them. A callback is
-- named, and the calls of callbacks are kept in their order, as are the packets that are sent; the
-- waiting call of an acknowledgement is named by its identifier.
pub mod Acks
pub mod Connect
pub mod Transport
pub mod Admitted
pub mod Refused
mod Tests
use rpress.Common.{
  ℕ, ◌+◌, ◌%◌, ◌^◌, Bool, true, false, Option, none, some, List, [], ◌∷◌, ◌++◌, Str, codes, HashMap,
  lookup, insert, remove, unwrap_or, nat_eq, list_eq, if◌then◌else◌,
}
use rpress.SocketIo.Json.{Json}
use rpress.SocketIo.EngineIo.{EioPacket, EioPacketType, message, new_packet}
use rpress.SocketIo.Packet
use rpress.SocketIo.Packet.{
  SioPacket, SioPacketType, event_type, ack_type, disconnect_type, event_name, event_data,
}
use rpress.SocketIo.Packet.Decode.{Decoded, panicked, rejected, decoded, decode}
use rpress.SocketIo.Server.Emit.{message_packet}

pub record SocketIoClient (V N : Type 0) : Type 0 where
  pub sid : Str
  pub engine_sid : Str
  pub namespace : Str
  pub sent : List EioPacket
  pub event_handlers : HashMap Str N
  pub ack_pending : HashMap ℕ ℕ
  pub ack_counter : ℕ
  pub connected : Bool
  pub called : List (N × List V)
  pub resolved : List (ℕ × V)

-- How the dispatch loop goes on behind a packet.
pub data Dispatch : Type 0 where
  goes_on : Dispatch
  ends : Dispatch
  dies : Dispatch

module _ {V N : Type 0} (json : Json V) where
  -- A client of a session that was let in, with the identifier from the answer.
  unfoldable pub connected_client : Str → Str → Str → SocketIoClient V N
  connected_client sid engine_sid namespace = record {
    sid = sid;
    engine_sid = engine_sid;
    namespace = namespace;
    sent = [];
    event_handlers = [];
    ack_pending = [];
    ack_counter = 0;
    connected = true;
    called = [];
    resolved = [];
  }

  unfoldable pub call_handler : Option N → List V → SocketIoClient V N → SocketIoClient V N
  call_handler none args c = c
  call_handler (some handler) args c = record c { called = c.called ++ (handler, args) ∷ [] }

  unfoldable pub dispatch_event :
      Option Str → Option (List V) → SocketIoClient V N → SocketIoClient V N
  unfolding call_handler
  dispatch_event none args c = c
  dispatch_event (some name) args c =
      call_handler (lookup name c.event_handlers) (unwrap_or args []) c

  unfoldable pub resolve : Option ℕ → V → SocketIoClient V N → SocketIoClient V N
  resolve none value c = c
  resolve (some channel) value c = record c { resolved = c.resolved ++ (channel, value) ∷ [] }

  unfoldable pub dispatch_ack : Option ℕ → Option V → SocketIoClient V N → SocketIoClient V N
  unfolding resolve
  dispatch_ack none content c = c
  dispatch_ack (some ack_id) content c =
      resolve (lookup ack_id c.ack_pending) (unwrap_or content json.null)
        (record c { ack_pending = remove ack_id c.ack_pending })

  unfoldable pub dispatch_sio :
      SioPacket V → SioPacketType → SocketIoClient V N → Dispatch × SocketIoClient V N
  unfolding dispatch_event dispatch_ack
  dispatch_sio pkt event_type c =
      (goes_on, dispatch_event (event_name json pkt) (event_data json pkt) c)
  dispatch_sio pkt ack_type c = (goes_on, dispatch_ack pkt.id pkt.content c)
  dispatch_sio pkt disconnect_type c = (ends, record c { connected = false })
  dispatch_sio pkt _ c = (goes_on, c)

  unfoldable pub dispatch_decoded : Decoded V → SocketIoClient V N → Dispatch × SocketIoClient V N
  unfolding dispatch_sio
  dispatch_decoded panicked c = (dies, c)
  dispatch_decoded rejected c = (goes_on, c)
  dispatch_decoded (decoded pkt) c = dispatch_sio pkt pkt.packet_type c

  unfoldable pub dispatch_eio :
      EioPacketType → Option Str → SocketIoClient V N → Dispatch × SocketIoClient V N
  unfolding dispatch_decoded
  dispatch_eio message (some text) c = dispatch_decoded (decode json text) c
  dispatch_eio _ _ c = (goes_on, c)

  unfoldable pub after_dispatch :
      Dispatch → SocketIoClient V N → SocketIoClient V N → SocketIoClient V N
  after_dispatch goes_on c later = later
  after_dispatch ends c later = record c { connected = false }
  after_dispatch dies c later = c

  -- The packets of the transport, up to its end.
  unfoldable pub dispatch_loop : List EioPacket → SocketIoClient V N → SocketIoClient V N
  unfolding dispatch_eio after_dispatch
  dispatch_loop [] c = record c { connected = false }
  dispatch_loop (pkt ∷ pkts) c =
      let (next, c') = dispatch_eio pkt.packet_type pkt.content c in
      let later = dispatch_loop pkts c' in after_dispatch next c' later

  unfoldable pub on : Str → N → SocketIoClient V N → SocketIoClient V N
  on event handler c = record c { event_handlers = insert event handler c.event_handlers }

  -- Whether the packet was sent.
  unfoldable pub emit : Str → V → SocketIoClient V N → Bool × SocketIoClient V N
  unfolding message_packet
  emit event content c =
      if c.connected
      then (
        true,
        record c {
          sent =
              c.sent ++ message_packet json (Packet.event json c.namespace event content none) ∷ [];
        },
      )
      else (false, c)

  unfoldable pub emit_if : Bool → Str → V → SocketIoClient V N → Option ℕ × SocketIoClient V N
  unfolding message_packet
  emit_if false event content c = (none, c)
  emit_if true event content c = (
    some c.ack_counter,
    record c {
      sent =
          c.sent
          ++ message_packet json (Packet.event json c.namespace event content (some c.ack_counter))
            ∷ [];
      ack_pending = insert c.ack_counter c.ack_counter c.ack_pending;
      ack_counter = (c.ack_counter + 1) % 2 ^ 64;
    },
  )

  -- The identifier that is waited for, if the client is connected.
  unfoldable pub emit_with_ack : Str → V → SocketIoClient V N → Option ℕ × SocketIoClient V N
  unfolding emit_if
  emit_with_ack event content c = emit_if c.connected event content c

  unfoldable pub disconnect : SocketIoClient V N → SocketIoClient V N
  unfolding message_packet
  disconnect c =
      if c.connected
      then record c {
        sent = c.sent ++ message_packet json (Packet.disconnect c.namespace) ∷ [];
        connected = false;
      }
      else c
