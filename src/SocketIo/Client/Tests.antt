-- ===== src/SocketIo/Client/Tests.antt =====
-- A client that calls, and a server that answers it.
use rpress.Common.{
  false, Option, List, lookup, eq_refl, ℕ, true, none, some, [], ◌∷◌, ◌++◌, Str, codes, runs, ◌==◌,
  nat_eq, list_eq, if◌then◌else◌, ◌≡◌, refl, inl, arith,
}
use rpress.SocketIo.Json.{Json, IsJson, HasFields, is_array}
use rpress.SocketIo.Sample.{Value, raw, quoted, items, nil, cons, json, json-IsJson}
use rpress.SocketIo.Packet
use rpress.SocketIo.Packet.{arguments, is_binary}
use rpress.SocketIo.Packet.Decode.{next_holds, or_zero, ends_id}
use rpress.SocketIo.Packet.Fields.{IsNamespace}
use rpress.SocketIo.Sessions.{default_config, EioSession, EioHandshake, web_socket}
use rpress.SocketIo.Server.{Socket, Io, World, with_config, set_connection_handler, send}
use rpress.SocketIo.Server.Emit.{message_packet}
use rpress.SocketIo.Server.Handle.{
  authorize, run_connection, connection_handler_of, find_socket, event_handler_of,
  process_incoming_eio_packet,
}
use rpress.SocketIo.Client.{SocketIoClient, connected_client, dispatch_eio, emit_with_ack}
use rpress.SocketIo.Client.Connect.{refused, wait_for_connect, connect_inner}
use rpress.SocketIo.Client.Transport.{ok}
use rpress.SocketIo.Client.Refused.{connect_inner-refused}
use rpress.SocketIo.Client.Admitted.{connect_inner-admitted}
use rpress.SocketIo.Client.Acks.{payload, emit_with_ack-answered}

-- The texts of the two values that are exchanged.
abbrev first_text : Value → Str
first_text (raw s) = s
first_text (quoted s) = codes "\"" ++ (s ++ codes "\"")
first_text (items nil) = codes "[]"
first_text (items (cons v vs)) = codes "[" ++ (first_text v ++ codes "]")

abbrev call : Value
call = items (cons (quoted (codes "hi")) (cons (raw (codes "1")) nil))

abbrev answer : Value
answer = items (cons (raw (codes "ok")) nil)

abbrev two_texts : Json Value
two_texts = record json {
  to_string = first_text;
  from_str = λ s.
      if s == first_text call
      then some call
      else if s == first_text answer
      then some answer
      else none;
}

two_texts-IsJson : IsJson two_texts
two_texts-IsJson = record {
  as_array-array = json-IsJson.as_array-array;
  as_str-string = json-IsJson.as_str-string;
}

abbrev world : World Value ℕ
world = record {
  json = two_texts;
  handshake_text = λ h. codes "{}";
  uuid = λ n. n ∷ [];
  authenticate = λ n v. inl v;
  on_connection = λ n socket io. io;
  on_event = λ n socket vs io. (some (raw (codes "ok")), io);
  on_disconnect = λ n socket io. io;
}

abbrev socket : Socket Value
socket = record {
  id = codes "a";
  engine_sid = codes "s";
  namespace = codes "/";
  eio_tx = codes "s";
  auth = raw (codes "null");
}

abbrev io : Io Value ℕ
io = record (with_config default_config) {
  sockets = (codes "a", socket) ∷ [];
  socket_handlers =
      (codes "a", record { events = (codes "hi", 7) ∷ []; disconnect_handler = none }) ∷ [];
}

abbrev client : SocketIoClient Value ℕ
client = connected_client two_texts (codes "a") (codes "s") (codes "/")

root-IsNamespace : IsNamespace (codes "/")
unfolding next_holds
root-IsNamespace = record { slash = refl; ascii = (refl, tt); no_comma = (refl, tt) }

emit_with_ack-answered_example :
    let request =
      message_packet two_texts
        (Packet.event two_texts (codes "/") (codes "hi") (raw (codes "1")) (some 0)) in
    let reply = message_packet two_texts (Packet.ack two_texts (codes "/") 0 (raw (codes "ok"))) in
    let c' = (emit_with_ack two_texts (codes "hi") (raw (codes "1")) client).1 in
    (c'.sent ≡ client.sent ++ request ∷ [])
    × (process_incoming_eio_packet world (codes "s") request io ≡ (true, send (codes "s") reply io))
    × ((dispatch_eio two_texts reply.packet_type reply.content c').1.resolved
        ≡ client.resolved ++ (0, payload two_texts (raw (codes "ok"))) ∷ [])
unfolding runs connected_client find_socket event_handler_of is_binary or_zero ends_id Packet.event
    Packet.ack arguments is_array
emit_with_ack-answered_example =
    emit_with_ack-answered world client (codes "s") (codes "a") (codes "hi") (raw (codes "1"))
      socket 7 io io (raw (codes "ok")) two_texts-IsJson refl
      (record {
        attachments = refl;
        attachments_fit = omega arith;
        namespace = root-IsNamespace;
        id_fits = omega arith;
        content = record { begins = refl; not_empty = refl; from_str-to_string = refl };
      })
      (record {
        attachments = refl;
        attachments_fit = omega arith;
        namespace = root-IsNamespace;
        id_fits = omega arith;
        content = record { begins = refl; not_empty = refl; from_str-to_string = refl };
      })
      refl refl refl refl

-- Objects of one field, as the list of its name and its value.
abbrev fields_of : List (Str × Value) → Value
fields_of ((key, v) ∷ []) = items (cons (quoted key) (cons v nil))
fields_of _ = raw (codes "{}")

abbrev get_field : Str → Value → Option Value
get_field key (items (cons (quoted name) (cons v nil))) = if name == key then some v else none
get_field key _ = none

abbrev told : Value
told = items (cons (quoted (codes "sid")) (cons (quoted (codes "a")) nil))

abbrev with_fields : Json Value
with_fields = record json {
  to_string = first_text;
  from_str = λ s. if s == first_text told then some told else none;
  object = fields_of;
  get = get_field;
}

with_fields-IsJson : IsJson with_fields
with_fields-IsJson = record {
  as_array-array = json-IsJson.as_array-array;
  as_str-string = json-IsJson.as_str-string;
}

with_fields-HasFields : HasFields with_fields
with_fields-HasFields = record { get-object = λ key v. rw (eq_refl key) refl }

abbrev letting_in : World Value ℕ
letting_in = record world { json = with_fields; uuid = λ n. codes "a" }

abbrev session : EioSession
session = record {
  sid = codes "s";
  transport = web_socket;
  created_at = 0;
  last_pong = 0;
  tx = codes "s";
  poll_notify = false;
  poll_buffer = [];
  closed = false;
}

abbrev open_io : Io Value ℕ
open_io = set_connection_handler (codes "/") 7 (record (with_config default_config) {
  session_store = record { sessions = (codes "s", session) ∷ []; config = default_config };
})

abbrev handshake : EioHandshake
handshake = record {
  sid = codes "s";
  upgrades = [];
  ping_interval = 25000;
  ping_timeout = 20000;
  max_payload = 1000000;
}

connect_inner-admitted_example :
    let id = codes "a" in
    let request = message_packet with_fields (Packet.connect (codes "/") none) in
    let reply = message_packet with_fields (Packet.connect_ok with_fields (codes "/") id) in
    (socket : Socket Value) × (io' : Io Value ℕ) × (process_incoming_eio_packet letting_in
        (codes "s")
        request
        open_io
      ≡ (
        true,
        run_connection letting_in
            (connection_handler_of (lookup (codes "/") open_io.namespaces))
            socket
            io',
      ))
    × (lookup id io'.sockets ≡ some socket)
    × (socket.engine_sid ≡ codes "s")
    × (io'.sent ≡ open_io.sent ++ (codes "s", reply) ∷ [])
    × (connect_inner with_fields {N = ℕ} (ok handshake) (codes "/") none (reply ∷ [])
        ≡ some (request, connected_client with_fields id (codes "s") (codes "/")))
unfolding runs set_connection_handler with_config is_binary or_zero ends_id Packet.connect
    Packet.connect_ok authorize
connect_inner-admitted_example =
    connect_inner-admitted letting_in handshake (codes "/") none (raw (codes "null")) session
      open_io [] with_fields-IsJson with_fields-HasFields
      (record {
        attachments = refl;
        attachments_fit = omega arith;
        namespace = root-IsNamespace;
        id_fits = omega arith;
        content = tt;
      })
      (record {
        attachments = refl;
        attachments_fit = omega arith;
        namespace = root-IsNamespace;
        id_fits = omega arith;
        content = record { begins = refl; not_empty = refl; from_str-to_string = refl };
      })
      refl refl

-- The message of a namespace that nobody has set up.
abbrev message_told : Value
message_told =
    items (cons (quoted (codes "message")) (cons (quoted (codes "Invalid namespace")) nil))

abbrev with_message : Json Value
with_message = record with_fields {
  from_str = λ s. if s == first_text message_told then some message_told else none;
}

with_message-IsJson : IsJson with_message
with_message-IsJson = record {
  as_array-array = json-IsJson.as_array-array;
  as_str-string = json-IsJson.as_str-string;
}

with_message-HasFields : HasFields with_message
with_message-HasFields = record { get-object = λ key v. rw (eq_refl key) refl }

abbrev refusing : World Value ℕ
refusing = record world { json = with_message }

abbrev empty_io : Io Value ℕ
empty_io = record (with_config default_config) {
  session_store = record { sessions = (codes "s", session) ∷ []; config = default_config };
}

connect_inner-refused_example :
    let request = message_packet with_message (Packet.connect (codes "/") none) in
    let reply =
      message_packet with_message
        (Packet.connect_error with_message (codes "/") (codes "Invalid namespace")) in
    (process_incoming_eio_packet refusing (codes "s") request empty_io
      ≡ (true, record empty_io { sent = empty_io.sent ++ (codes "s", reply) ∷ [] }))
    × (wait_for_connect with_message (reply ∷ []) ≡ refused (codes "Invalid namespace"))
    × (connect_inner with_message {N = ℕ} (ok handshake) (codes "/") none (reply ∷ []) ≡ none)
unfolding runs with_config is_binary or_zero ends_id Packet.connect Packet.connect_error authorize
connect_inner-refused_example =
    connect_inner-refused refusing handshake (codes "/") (codes "Invalid namespace") none session
      empty_io [] with_message-IsJson with_message-HasFields
      (record {
        attachments = refl;
        attachments_fit = omega arith;
        namespace = root-IsNamespace;
        id_fits = omega arith;
        content = tt;
      })
      (record {
        attachments = refl;
        attachments_fit = omega arith;
        namespace = root-IsNamespace;
        id_fits = omega arith;
        content = record { begins = refl; not_empty = refl; from_str-to_string = refl };
      })
      refl refl
