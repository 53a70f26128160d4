-- ===== src/SocketIo/Client/Transport/Heartbeat.antt =====
-- rpress-client/src/transport.rs and engine/src/core/socketio/handler.rs: how a client keeps its
-- session alive.
use rpress.Common.{
  map, ◌==◌, drop, length, drop-length, eq_refl, ℕ, Bool, All, ◌+◌, ◌-◌, ◌≤◌, true, false, none,
  some, List, [], ◌∷◌, Str, lookup, ltb, nat_eq, list_eq, if◌then◌else◌, ◌≡◌, refl, ap, ◌∙◌, arith,
}
use rpress.SocketIo.EngineIo.{EioPacket, from_byte, ping, pong, new_packet, encode, decode}
use rpress.SocketIo.Sessions.{EioSession, web_socket, mark_pong, change_session}
use rpress.SocketIo.Server.{Io, World, send}
use rpress.SocketIo.Server.Connects.{lookup-insert_same}
use rpress.SocketIo.Server.Handle.{with_sessions, process_eio, process_incoming_eio_packet}
use rpress.SocketIo.Server.Loops.{
  text_message, goes_on, send_ping, on_tick, on_ws_packet, on_message, went_on,
}
use rpress.SocketIo.Client.Transport
use rpress.SocketIo.Client.Transport.{Channels, reader_task, writer_task}

-- A client whose channels are open and empty, and whose writes succeed.
abbrev pub idle : Channels
idle = record { outgoing = []; incoming = []; outgoing_open = true; incoming_open = true }

-- What it sends for the texts that it gets.
pub replies : List Str → List Str
replies texts =
    writer_task (λ n. true) (reader_task (map (λ t. some (text_message t)) texts) idle).outgoing

-- The texts of the packets that went to a channel.
pub written : Str → List (Str × EioPacket) → List Str
written tx [] = []
written tx ((channel, pkt) ∷ sends) =
    let rest = written tx sends in if channel == tx then encode pkt ∷ rest else rest

-- A client sends one text for a ping.
replies-ping : replies (encode (new_packet ping none) ∷ []) ≡ encode (new_packet pong none) ∷ []
unfolding replies reader_task writer_task Transport.on_message encode decode new_packet from_byte
replies-ping = refl

lookup-change_session :
    {V N : Type 0} (f : EioSession → EioSession) (sid : Str) (session : EioSession) (io : Io V N)
    → lookup sid io.session_store.sessions ≡ some session
    → lookup sid (change_session f sid io.session_store).sessions ≡ some (f session)
unfolding change_session
lookup-change_session f sid session io there =
    rw (there, change_session) (lookup-insert_same sid (f session) io.session_store.sessions)

module _ {V N : Type 0} (world : World V N) where
  on_message-pong :
      (sid : Str) (io : Io V N)
      → on_message world sid (text_message (encode (new_packet pong none))) io
        ≡ (goes_on, with_sessions (mark_pong io.clock sid) io)
  unfolding on_message on_ws_packet process_incoming_eio_packet process_eio went_on encode decode
      new_packet from_byte mark_pong
  on_message-pong sid io = refl

  -- The texts that come in at a time, one after the other.
  pub receive : Str → List Str → Io V N → Io V N
  receive sid [] io = io
  receive sid (text ∷ texts) io = receive sid texts (on_message world sid (text_message text) io).1

  -- Rounds of a heartbeat, one for each delay of the client: a tick of the session's loop at a time,
  -- then the client's answers, by that delay later, to the texts that the tick put on the session's
  -- channel, and the next tick an interval behind the first. Whether the loop goes on at each tick.
  pub beats : Str → Str → ℕ → List ℕ → Io V N → Bool
  beats sid tx now [] io = true
  beats sid tx now (delay ∷ delays) io =
      let (alive, ticked) = on_tick world sid (record io { clock = now }) in
      let texts = written tx (drop (length io.sent) ticked.sent) in
      let heard = receive sid (replies texts) (record ticked { clock = now + delay }) in
      let later = beats sid tx (now + io.config.ping_interval) delays heard in
      if alive then later else false

  on_tick-true :
      (sid : Str) (session : EioSession) (io : Io V N)
      → lookup sid io.session_store.sessions ≡ some session
      → io.clock - session.last_pong ≤ io.config.ping_interval + io.config.ping_timeout
      → on_tick world sid io ≡ (true, send_ping sid session.transport session.tx io)
  unfolding on_tick
  on_tick-true sid session io there young =
      let in_time : ltb (io.config.ping_interval + io.config.ping_timeout)
            (io.clock - session.last_pong)
          ≡ false =
        ground arith in
      rw (there, on_tick) (rw in_time refl)

  -- The text of a ping that the channel of a WebSocket takes.
  written-ping :
      (sid tx : Str) (io : Io V N)
      → written tx (drop (length io.sent) (send_ping sid web_socket tx io).sent)
        ≡ encode (new_packet ping none) ∷ []
  unfolding written send_ping send
  written-ping sid tx io =
      let pkt = new_packet ping none in
      ap (written tx) (drop-length io.sent ((tx, pkt) ∷ [])) ∙ rw (eq_refl tx) refl

  receive-replies :
      (sid : Str) (io : Io V N)
      → receive sid (replies (encode (new_packet ping none) ∷ [])) io
        ≡ with_sessions (mark_pong io.clock sid) io
  unfolding receive
  receive-replies sid io =
      ap (λ texts. receive sid texts io) replies-ping ∙ ap (λ r. r.1) (on_message-pong sid io)

  -- The heartbeat never ends the session of a client over a WebSocket that answers what it gets, as
  -- the client's transport does, each time before the next tick, if no more than an interval went
  -- by from the last answer to the first tick, however long that goes on.
  pub beats-true :
      (sid : Str) (session : EioSession) (now : ℕ) (delays : List ℕ) (io : Io V N)
      → lookup sid io.session_store.sessions ≡ some session
      → session.transport ≡ web_socket
      → now ≤ session.last_pong + io.config.ping_interval
      → All (λ d. d ≤ io.config.ping_interval) delays
      → beats sid session.tx now delays io ≡ true
  unfolding beats mark_pong with_sessions send_ping send
  beats-true sid session now [] io there socket young in_time = refl
  beats-true sid session now (delay ∷ delays) io there socket young (soon, in_time) =
      let io' = record io { clock = now } in
      let pinged = send_ping sid web_socket session.tx io' in
      let tick : on_tick world sid io' ≡ (true, pinged) =
        on_tick-true sid session io' there (omega arith)
        ∙ ap (λ t. (true, send_ping sid t session.tx io')) socket in
      let texts = written-ping sid session.tx io' in
      let heard = receive-replies sid (record pinged { clock = now + delay }) in
      let found =
        lookup-change_session (λ s. record s { last_pong = now + delay }) sid session pinged
          there in
      rw (tick, texts, heard)
        (beats-true sid (record session { last_pong = now + delay }) (now + io.config.ping_interval)
          delays _ found socket (omega arith) in_time)
