-- ===== src/SocketIo/Client/Acks.antt =====
-- An event that asks for an acknowledgement, from the client to the server and back.
use rpress.Common.{
  ℕ, true, some, List, [], ◌∷◌, ◌++◌, Str, lookup, remove, lookup-insert, eq_refl, nat_eq, list_eq,
  if◌then◌else◌, ◌≡◌, refl, ap, ◌∙◌,
}
use rpress.SocketIo.Json.{Json, IsJson, is_array}
use rpress.SocketIo.EngineIo.{new_packet}
use rpress.SocketIo.Packet
use rpress.SocketIo.Packet.{SioPacket, arguments, event_name, event_data}
use rpress.SocketIo.Packet.RoundTrip.{IsEncodable, decode-encode_packet}
use rpress.SocketIo.Packet.Events.{event_data-event}
use rpress.SocketIo.Server.{Socket, Io, World, send}
use rpress.SocketIo.Server.Emit.{message_packet, send_sio_packet}
use rpress.SocketIo.Server.Handle.{
  find_socket, event_handler_of, run_event, acknowledge, handle_sio_event, process_event,
  process_sio_packet, process_decoded, process_incoming_eio_packet,
}
use rpress.SocketIo.Client.{
  SocketIoClient, resolve, dispatch_ack, dispatch_decoded, dispatch_eio, emit_if, emit_with_ack,
}

-- The handler's answer as it is sent.
abbrev pub payload : {V : Type 0} → Json V → V → V
payload json answer = if is_array json answer then answer else json.array (answer ∷ [])

module _ {V N : Type 0} (world : World V N) where
  abbrev json : Json V
  json = world.json

  handle_sio_event-answers :
      (sid id namespace name : Str) (content : List V) (n : ℕ) (socket : Socket V) (handler : N)
      (io io' : Io V N) (answer : V)
      → find_socket sid namespace io.sockets ≡ some id
      → lookup id io.sockets ≡ some socket
      → event_handler_of name (lookup id io.socket_handlers) ≡ some handler
      → world.on_event handler socket content io ≡ (some answer, io')
      → handle_sio_event world sid namespace name content (some n) io
        ≡ send socket.eio_tx (message_packet json (Packet.ack json namespace n answer)) io'
  unfolding handle_sio_event send_sio_packet
  handle_sio_event-answers sid id namespace name content n socket handler io io' answer found there
        handles answers =
      rw (found, handle_sio_event)
        (ap
            (λ s.
              run_event world (event_handler_of name (lookup id io.socket_handlers)) s namespace
                content (some n) io)
            there
          ∙ ap (λ h. run_event world h (some socket) namespace content (some n) io) handles
          ∙ ap (λ r. acknowledge world socket namespace (some n) r) answers)

  process-event :
      (sid namespace name : Str) (content : V) (n : ℕ) (io : Io V N)
      → IsJson json
      → IsEncodable json (Packet.event json namespace name content (some n))
      → process_incoming_eio_packet world sid
          (message_packet json (Packet.event json namespace name content (some n)))
          io
        ≡ (true, handle_sio_event world sid namespace name (arguments json content) (some n) io)
  unfolding process_incoming_eio_packet process_decoded process_sio_packet process_event
      message_packet new_packet Packet.event
  process-event sid namespace name content n io h encodable =
      let p = Packet.event json namespace name content (some n) in
      let (named, has) = event_data-event json namespace name content (some n) h in
      ap (λ d. process_decoded world sid d io) (decode-encode_packet json p encodable)
      ∙ ap (λ e. (true, process_event world sid p e (event_data json p) io)) named
      ∙ ap (λ d. (true, process_event world sid p (some name) d io)) has

module _ {V M : Type 0} (json : Json V) where
  dispatch-ack :
      (namespace : Str) (n channel : ℕ) (answer : V) (c : SocketIoClient V M)
      → IsEncodable json (Packet.ack json namespace n answer)
      → lookup n c.ack_pending ≡ some channel
      → (let reply = message_packet json (Packet.ack json namespace n answer) in
          (dispatch_eio json reply.packet_type reply.content c).1.resolved
          ≡ c.resolved ++ (channel, payload json answer) ∷ [])
  unfolding dispatch_eio dispatch_decoded dispatch_ack resolve message_packet new_packet Packet.ack
  dispatch-ack namespace n channel answer c encodable waits =
      ap (λ d. (dispatch_decoded json d c).1.resolved)
        (decode-encode_packet json (Packet.ack json namespace n answer) encodable)
      ∙ ap
          (λ o.
            (resolve json o (payload json answer)
              (record c { ack_pending = remove n c.ack_pending })).resolved)
          waits

  emit_with_ack-connected :
      (name : Str) (content : V) (c : SocketIoClient V M)
      → c.connected ≡ true
      → ((emit_with_ack json name content c).1.sent
          ≡ c.sent
            ++ message_packet json (Packet.event json c.namespace name content (some c.ack_counter))
              ∷ [])
        × (lookup c.ack_counter (emit_with_ack json name content c).1.ack_pending
            ≡ some c.ack_counter)
        × ((emit_with_ack json name content c).1.resolved ≡ c.resolved)
  unfolding emit_with_ack emit_if
  emit_with_ack-connected name content c connected =
      let waits =
        lookup-insert c.ack_counter c.ack_counter c.ack_counter c.ack_pending
        ∙ rw (eq_refl c.ack_counter) refl in
      (
        ap (λ b. (emit_if json b name content c).1.sent) connected,
        ap (λ b. lookup c.ack_counter (emit_if json b name content c).1.ack_pending) connected
            ∙ waits,
        ap (λ b. (emit_if json b name content c).1.resolved) connected,
      )

-- A call that waits for an acknowledgement is answered. A connected client puts one packet on its
-- channel; the server, on that packet, runs the handler of its socket for the event on the
-- arguments, and puts one packet on the socket's channel behind what the handler did; the client,
-- on that packet, hands the handler's answer, in an array if it is none, to the call that waits,
-- and to no other. This holds if the handler answers and both packets can be encoded.
pub emit_with_ack-answered :
    {V N M : Type 0} (world : World V N) (c : SocketIoClient V M) (sid id name : Str) (content : V)
    (socket : Socket V) (handler : N) (io io' : Io V N) (answer : V)
    → IsJson world.json
    → c.connected ≡ true
    → IsEncodable world.json (Packet.event world.json c.namespace name content (some c.ack_counter))
    → IsEncodable world.json (Packet.ack world.json c.namespace c.ack_counter answer)
    → find_socket sid c.namespace io.sockets ≡ some id
    → lookup id io.sockets ≡ some socket
    → event_handler_of name (lookup id io.socket_handlers) ≡ some handler
    → world.on_event handler socket (arguments world.json content) io ≡ (some answer, io')
    → let request =
        message_packet world.json
          (Packet.event world.json c.namespace name content (some c.ack_counter)) in
      let reply =
        message_packet world.json (Packet.ack world.json c.namespace c.ack_counter answer) in
      let c' = (emit_with_ack world.json name content c).1 in
      (c'.sent ≡ c.sent ++ request ∷ [])
      × (process_incoming_eio_packet world sid request io ≡ (true, send socket.eio_tx reply io'))
      × ((dispatch_eio world.json reply.packet_type reply.content c').1.resolved
          ≡ c.resolved ++ (c.ack_counter, payload world.json answer) ∷ [])
emit_with_ack-answered world c sid id name content socket handler io io' answer h connected
      encodable encodable' found there handles answers =
    let c' = (emit_with_ack world.json name content c).1 in
    let (sent, waits, same) = emit_with_ack-connected world.json name content c connected in
    (
      sent,
      process-event world sid c.namespace name content c.ack_counter io h encodable
          ∙ ap (λ s. (true, s))
              (handle_sio_event-answers world sid id c.namespace name (arguments world.json content)
                c.ack_counter socket handler io io' answer found there handles answers),
      dispatch-ack world.json c.namespace c.ack_counter c.ack_counter answer c' encodable' waits
          ∙ ap (λ r. r ++ (c.ack_counter, payload world.json answer) ∷ []) same,
    )
