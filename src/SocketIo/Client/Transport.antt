-- ===== src/SocketIo/Client/Transport.antt =====
-- rpress-client/src/transport.rs: the WebSocket under a client. What the reader puts on a channel
-- is kept in its order, as are the texts that the writer sends.
pub mod Reader
pub mod Heartbeat
mod Tests
use rpress.Common.{
  ℕ, zero, suc, ◌+◌, Bool, true, false, not, ◌||◌, Option, none, some, List, [], ◌∷◌, ◌++◌, Str,
  codes, ◌==◌, nat_eq, list_eq, if◌then◌else◌,
}
use rpress.SocketIo.EngineIo.{
  EioPacket, EioPacketType, open_packet, close, ping, pong, message, upgrade, noop, new_packet,
  encode, decode,
}
use rpress.SocketIo.Sessions.{EioHandshake}
use rpress.SocketIo.Server.Loops.{
  Message, text_message, binary_message, close_message, ping_message, other_message,
}

-- What the client calls of the `url` crate.
pub record UrlLibrary (U : Type 0) : Type 0 where
  pub parse : Str → Option U
  pub scheme : U → Str
  pub set_scheme : Str → U → Option U
  pub set_path : Str → U → U
  pub set_query : Str → U → U

-- Why a client does not connect.
pub data Failure : Type 0 where
  invalid_url : Failure
  unsupported_scheme : Str → Failure
  connection_failed : Failure
  closed_before_handshake : Failure
  handshake_error : Failure
  not_text : Failure
  undecodable : Failure
  not_open : EioPacketType → Failure
  no_content : Failure
  bad_handshake : Failure
  panic : Failure

pub data Result (A : Type 0) : Type 0 where
  ok : A → Result A
  err : Failure → Result A

module _ {U : Type 0} (urls : UrlLibrary U) where
  -- `set_scheme(…).unwrap()`
  unfoldable pub with_scheme : Option U → Result U
  with_scheme none = err panic
  with_scheme (some url) = ok url

  unfoldable pub to_websocket : Str → U → Result U
  unfolding with_scheme
  to_websocket scheme url =
      if scheme == codes "http"
      then with_scheme (urls.set_scheme (codes "ws") url)
      else if scheme == codes "https"
      then with_scheme (urls.set_scheme (codes "wss") url)
      else if (scheme == codes "ws") || (scheme == codes "wss")
      then ok url
      else err (unsupported_scheme scheme)

  -- The path and the query, of a URL that there is.
  unfoldable pub with_query : Str → Result U → Result U
  with_query namespace (err e) = err e
  with_query namespace (ok url) = ok (
      urls.set_query (codes "EIO=4&transport=websocket&nsp=" ++ namespace)
        (urls.set_path (codes "/socket.io/") url))

  unfoldable pub build_ws_url : Str → Str → Result U
  unfolding to_websocket with_query
  build_ws_url server_url namespace = elim (urls.parse server_url) [
    | none ↦ err invalid_url
    | some url ↦ with_query namespace (to_websocket (urls.scheme url) url)
  ]

-- `from_str` reads the JSON of a handshake.
module _ (from_str : Str → Option EioHandshake) where
  unfoldable pub read_handshake : Option Str → Result EioHandshake
  read_handshake none = err no_content
  read_handshake (some content) = elim (from_str content) [
    | none ↦ err bad_handshake
    | some handshake ↦ ok handshake
  ]

  unfoldable pub check_open : EioPacketType → Option Str → Result EioHandshake
  unfolding read_handshake
  check_open open_packet content = read_handshake content
  check_open t content = err (not_open t)

  -- The first message: none where the connection is closed, `some none` where it fails.
  unfoldable pub first_message : Option (Option Message) → Result EioHandshake
  unfolding check_open
  first_message none = err closed_before_handshake
  first_message (some none) = err handshake_error
  first_message (some (some (text_message text))) = elim (decode text) [
    | none ↦ err undecodable
    | some pkt ↦ check_open pkt.packet_type pkt.content
  ]
  first_message (some (some other)) = err not_text

  -- `dial` connects to a URL and gives the first message; none where it fails.
  unfoldable pub open_transport :
      {U : Type 0} → (U → Option (Option (Option Message))) → Result U → Result EioHandshake
  unfolding first_message
  open_transport dial (err e) = err e
  open_transport dial (ok url) = elim (dial url) [
    | none ↦ err connection_failed
    | some first ↦ first_message first
  ]

  unfoldable pub connect :
      {U : Type 0}
      → UrlLibrary U
      → (U → Option (Option (Option Message)))
      → Str
      → Str
      → Result EioHandshake
  unfolding open_transport build_ws_url
  connect urls dial server_url namespace =
      open_transport dial (build_ws_url urls server_url namespace)

-- The two channels, with what is put on them, and whether their receivers are still there.
pub record Channels : Type 0 where
  pub outgoing : List EioPacket
  pub incoming : List EioPacket
  pub outgoing_open : Bool
  pub incoming_open : Bool

-- Whether the reader goes on, and the channels.
unfoldable pub send_outgoing : EioPacket → Channels → Bool × Channels
send_outgoing pkt c =
    if c.outgoing_open then (true, record c { outgoing = c.outgoing ++ pkt ∷ [] }) else (false, c)

unfoldable pub send_incoming : EioPacket → Channels → Bool × Channels
send_incoming pkt c =
    if c.incoming_open then (true, record c { incoming = c.incoming ++ pkt ∷ [] }) else (false, c)

unfoldable pub on_eio_packet : EioPacketType → EioPacket → Channels → Bool × Channels
unfolding send_outgoing send_incoming
on_eio_packet ping pkt c = send_outgoing (new_packet pong pkt.content) c
on_eio_packet close pkt c = (false, c)
on_eio_packet noop pkt c = (true, c)
on_eio_packet t pkt c = send_incoming pkt c

unfoldable pub on_message : Message → Channels → Bool × Channels
unfolding on_eio_packet
on_message (text_message text) c = elim (decode text) [
  | none ↦ (true, c)
  | some pkt ↦ on_eio_packet pkt.packet_type pkt c
]
on_message close_message c = (false, c)
on_message ping_message c = (true, c)
on_message binary_message c = (true, c)
on_message other_message c = (true, c)

-- The frames of the socket, of which one may be an error, up to what stops the reader.
unfoldable pub reader_task : List (Option Message) → Channels → Channels
unfolding on_message
reader_task [] c = c
reader_task (none ∷ frames) c = c
reader_task (some msg ∷ frames) c =
    let (goes_on, c') = on_message msg c in
    let rest = reader_task frames c' in if goes_on then rest else c'

-- The texts that are sent; `writes` tells which write succeeds.
unfoldable pub writer_task : (ℕ → Bool) → List EioPacket → List Str
writer_task writes [] = []
writer_task writes (pkt ∷ pkts) =
    let rest = writer_task (λ n. writes (suc n)) pkts in if writes 0 then encode pkt ∷ rest else []
