-- ===== src/SocketIo/Sessions.antt =====
-- engine/src/core/socketio/engine_io.rs: the Engine.IO sessions. Times are in milliseconds. The
-- channel of a session is named by the session, and `poll_notify` tells whether its `Notify` holds
-- a permit.
use rpress.Common.{
  ℕ, Bool, true, false, Option, none, some, List, [], ◌∷◌, ◌++◌, Str, codes, HashMap, lookup,
  insert, remove, contains_key, nat_eq, list_eq, if◌then◌else◌,
}
use rpress.SocketIo.EngineIo.{EioPacket}

pub record EioHandshake : Type 0 where
  pub sid : Str
  pub upgrades : List Str
  pub ping_interval : ℕ
  pub ping_timeout : ℕ
  pub max_payload : ℕ

pub data TransportType : Type 0 where
  polling web_socket upgrading : TransportType

pub record EioConfig : Type 0 where
  pub ping_interval : ℕ
  pub ping_timeout : ℕ
  pub max_payload : ℕ
  pub websocket_only : Bool

abbrev pub default_config : EioConfig
default_config = record {
  ping_interval = 25000;
  ping_timeout = 20000;
  max_payload = 1000000;
  websocket_only = false;
}

pub record EioSession : Type 0 where
  pub sid : Str
  pub transport : TransportType
  pub created_at : ℕ
  pub last_pong : ℕ
  pub tx : Str
  pub poll_notify : Bool
  pub poll_buffer : List EioPacket
  pub closed : Bool

pub record EioSessionStore : Type 0 where
  pub sessions : HashMap Str EioSession
  pub config : EioConfig

unfoldable pub new : EioConfig → EioSessionStore
new config = record { sessions = []; config = config }

-- `sid` is the fresh identifier, and `now` the time.
unfoldable pub create_session : Str → ℕ → EioSessionStore → EioSessionStore
create_session sid now store =
    let session : EioSession = record {
      sid = sid;
      transport = polling;
      created_at = now;
      last_pong = now;
      tx = sid;
      poll_notify = false;
      poll_buffer = [];
      closed = false;
    } in
    record store { sessions = insert sid session store.sessions }

unfoldable pub get_handshake_data : Str → EioSessionStore → Option EioHandshake
get_handshake_data sid store = elim (lookup sid store.sessions) [
  | none ↦ none
  | some session ↦ some (record {
    sid = sid;
    upgrades = if store.config.websocket_only then [] else codes "websocket" ∷ [];
    ping_interval = store.config.ping_interval;
    ping_timeout = store.config.ping_timeout;
    max_payload = store.config.max_payload;
  })
]

unfoldable pub remove_session : Str → EioSessionStore → EioSessionStore
remove_session sid store = record store { sessions = remove sid store.sessions }

-- `get_mut`
unfoldable pub change_session : (EioSession → EioSession) → Str → EioSessionStore → EioSessionStore
change_session f sid store = elim (lookup sid store.sessions) [
  | none ↦ store
  | some session ↦ record store { sessions = insert sid (f session) store.sessions }
]

unfoldable pub mark_pong : ℕ → Str → EioSessionStore → EioSessionStore
unfolding change_session
mark_pong now sid store = change_session (λ s. record s { last_pong = now }) sid store

unfoldable pub set_transport : Str → TransportType → EioSessionStore → EioSessionStore
unfolding change_session
set_transport sid transport store =
    change_session (λ s. record s { transport = transport }) sid store

unfoldable pub is_valid : Str → EioSessionStore → Bool
is_valid sid store = contains_key sid store.sessions

-- A packet put into the buffer, and the waiting reader notified.
unfoldable pub push_packet : EioPacket → Str → EioSessionStore → EioSessionStore
unfolding change_session
push_packet pkt sid store =
    change_session (λ s. record s { poll_buffer = s.poll_buffer ++ pkt ∷ []; poll_notify = true })
      sid store
