-- ===== src/SocketIo/Client/Transport/Tests.antt =====
-- What a transport reads, and a session that it keeps.
use rpress.Common.{
  ℕ, true, false, Option, none, some, List, [], ◌∷◌, ◌++◌, map, retain, Str, codes, runs, inl, ◌≡◌,
  refl, arith,
}
use rpress.SocketIo.EngineIo.{EioPacket, ping, message, noop, close, new_packet, decode, from_byte}
use rpress.SocketIo.EngineIo.RoundTrip.{normal}
use rpress.SocketIo.Sample.{Value, json}
use rpress.SocketIo.Sessions.{EioSession, EioHandshake, default_config, web_socket}
use rpress.SocketIo.Server.{Io, World, with_config}
use rpress.SocketIo.Client.Transport.{
  UrlLibrary, ok, err, unsupported_scheme, build_ws_url, reader_task, not_open, first_message,
}
use rpress.SocketIo.Server.Loops.{text_message}
use rpress.SocketIo.Client.Transport.Reader.{
  frame, is_ping, is_for_client, answer, reader_task-close,
}
use rpress.SocketIo.Client.Transport.Heartbeat.{idle, beats, beats-true}

abbrev pkts : List EioPacket
pkts =
    new_packet ping (some (codes "probe"))
    ∷ new_packet message (some (codes "0"))
    ∷ new_packet noop none
    ∷ new_packet ping none
    ∷ []

reader_task-close_example :
    (let c' =
        reader_task
          (map frame pkts
            ++ (frame (new_packet close none) ∷ frame (new_packet message (some (codes "1"))) ∷ []))
          idle in
      (c'.incoming ≡ [] ++ retain is_for_client (map normal pkts))
      × (c'.outgoing ≡ [] ++ map answer (retain is_ping (map normal pkts))))
unfolding new_packet
reader_task-close_example =
    reader_task-close pkts none (frame (new_packet message (some (codes "1"))) ∷ []) idle refl refl
      (refl, (refl, (refl, (refl, tt))))

abbrev world : World Value ℕ
world = record {
  json = json;
  handshake_text = λ h. codes "{}";
  uuid = λ n. n ∷ [];
  authenticate = λ n v. inl v;
  on_connection = λ n socket io. io;
  on_event = λ n socket vs io. (none, io);
  on_disconnect = λ n socket io. io;
}

abbrev session : EioSession
session = record {
  sid = codes "s";
  transport = web_socket;
  created_at = 0;
  last_pong = 0;
  tx = codes "s";
  poll_notify = false;
  poll_buffer = [];
  closed = false;
}

abbrev io : Io Value ℕ
io = record (with_config default_config) {
  session_store = record { sessions = (codes "s", session) ∷ []; config = default_config };
}

-- Four rounds, with answers at once and just before the next tick.
beats-true_example :
    beats world (codes "s") (codes "s") 25000 (20 ∷ 25000 ∷ 0 ∷ 24000 ∷ []) io ≡ true
unfolding runs with_config
beats-true_example =
    beats-true world (codes "s") session 25000 (20 ∷ 25000 ∷ 0 ∷ 24000 ∷ []) io refl refl
      (omega arith) (omega arith, (omega arith, (omega arith, (omega arith, tt))))

-- A library whose URLs are texts with a scheme beside them.
abbrev urls : UrlLibrary (Str × Str)
urls = record {
  parse = λ s. some (s, s);
  scheme = λ u. u.0;
  set_scheme = λ s u. some (s, u.1);
  set_path = λ p u. (u.0, u.1 ++ p);
  set_query = λ q u. (u.0, u.1 ++ (codes "?" ++ q));
}

schemes :
    (build_ws_url urls (codes "https") (codes "/")
      ≡ ok (codes "wss", codes "https/socket.io/?EIO=4&transport=websocket&nsp=/"))
    × (build_ws_url urls (codes "ftp") (codes "/") ≡ err (unsupported_scheme (codes "ftp")))
unfolding runs build_ws_url
schemes = (refl, refl)

-- The first packet must open the session.
not_opened :
    (from_str : Str → Option EioHandshake)
    → first_message from_str (some (some (text_message (codes "2")))) ≡ err (not_open ping)
unfolding first_message decode from_byte
not_opened from_str = refl
