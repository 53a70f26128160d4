-- ===== src/SocketIo/Server/Polling.antt =====
-- What a polling client reads, and what is read from it.
use rpress.Common.{
  Bool, true, ◌&&◌, none, some, List, [], ◌∷◌, ◌++◌, append-nil, append_assoc, map, Str, lookup,
  is_empty, if◌then◌else◌, nat_eq, list_eq, All, ◌≡◌, refl, sym, ap, ◌∙◌,
}
use rpress.Common.Utf8.{IsAscii, from_utf8_lossy_ascii}
use rpress.SocketIo.EngineIo.{
  EioPacket, noop, new_packet, encode_polling_payload, decode_polling_payload,
}
use rpress.SocketIo.EngineIo.RoundTrip.{normal, HasNoSeparator, decode-encode_polling_payload}
use rpress.SocketIo.Sessions.{EioSession, push_packet, change_session, is_valid}
use rpress.SocketIo.Server.{Io, World}
use rpress.SocketIo.Server.Connects.{lookup-insert_same}
use rpress.SocketIo.Server.Handle.{with_sessions, process_packets}
use rpress.SocketIo.Server.Http.{
  plain, polled, taken, drained, handle_polling_get, handle_polling_post, answer_post,
}
use rpress.SocketIo.Server.Loops.{on_packet}

module _ {V N : Type 0} where
  -- The packets go through the session's channel, one after the other.
  unfoldable pub deliver : Str → List EioPacket → Io V N → Io V N
  deliver sid [] io = io
  deliver sid (pkt ∷ pkts) io = deliver sid pkts (on_packet sid pkt io).1

  on_packet-lookup :
      (sid : Str) (pkt : EioPacket) (s : EioSession) (io : Io V N)
      → lookup sid io.session_store.sessions ≡ some s
      → lookup sid (on_packet sid pkt io).1.session_store.sessions
        ≡ some (record s { poll_buffer = s.poll_buffer ++ pkt ∷ []; poll_notify = true })
  unfolding on_packet with_sessions push_packet
  on_packet-lookup sid pkt s io found =
      rw (found, on_packet)
        (rw (found, change_session)
          (lookup-insert_same sid
            (record s { poll_buffer = s.poll_buffer ++ pkt ∷ []; poll_notify = true })
            io.session_store.sessions))

  deliver-buffer :
      (sid : Str) (pkts : List EioPacket) (s : EioSession) (io : Io V N)
      → lookup sid io.session_store.sessions ≡ some s
      → (s' : EioSession) × (lookup sid (deliver sid pkts io).session_store.sessions ≡ some s')
        × (s'.poll_buffer ≡ s.poll_buffer ++ pkts)
  unfolding deliver
  deliver-buffer sid [] s io found = (s, found, sym (append-nil s.poll_buffer))
  deliver-buffer sid (pkt ∷ pkts) s io found =
      let (s', found', buffer) =
        deliver-buffer sid pkts
          (record s { poll_buffer = s.poll_buffer ++ pkt ∷ []; poll_notify = true })
          (on_packet sid pkt io).1 (on_packet-lookup sid pkt s io found) in
      (s', found', buffer ∙ append_assoc s.poll_buffer (pkt ∷ []) pkts)

polled-taken :
    (timed_out : Bool) (s : EioSession) (pkt : EioPacket) (pkts : List EioPacket)
    → s.poll_buffer ≡ pkt ∷ pkts
    → polled (taken timed_out s) ≡ encode_polling_payload (pkt ∷ pkts)
unfolding polled taken
polled-taken timed_out s pkt pkts waiting = ap (λ b. polled_buffer timed_out b) waiting
  where
    polled_buffer : Bool → List EioPacket → Str
    polled_buffer timed_out b =
        polled (if is_empty b && timed_out then new_packet noop none ∷ [] else b)

drained_empty : (timed_out : Bool) (s : EioSession) → (drained timed_out s).poll_buffer ≡ []
unfolding drained
drained_empty timed_out s = refl

module _ {V N : Type 0} where
  handle_polling_get-session :
      (sid : Str) (timed_out : Bool) (s : EioSession) (io : Io V N)
      → lookup sid io.session_store.sessions ≡ some s
      → ((handle_polling_get sid timed_out io).0 ≡ some (plain (polled (taken timed_out s))))
        × (lookup sid (handle_polling_get sid timed_out io).1.session_store.sessions
            ≡ some (drained timed_out s))
  unfolding handle_polling_get with_sessions change_session
  handle_polling_get-session sid timed_out s io found = (
    rw (found, handle_polling_get) refl,
    rw (found, handle_polling_get)
        (rw (found, change_session)
          (lookup-insert_same sid (drained timed_out s) io.session_store.sessions)),
  )

  -- The packets that go through a session's channel while nothing waits in its buffer are what its
  -- client decodes from the answer to its next poll, in their order, however the wait for them
  -- ended, and nothing waits then, if there is a packet and no content holds the record separator.
  pub handle_polling_get-deliver :
      (sid : Str) (pkt : EioPacket) (pkts : List EioPacket) (timed_out : Bool) (s : EioSession)
      (io : Io V N)
      → lookup sid io.session_store.sessions ≡ some s
      → s.poll_buffer ≡ []
      → All HasNoSeparator (pkt ∷ pkts)
      → (body : Str) × (s' : EioSession) × ((handle_polling_get sid timed_out
            (deliver sid (pkt ∷ pkts) io)).0
          ≡ some (plain body))
        × (decode_polling_payload body ≡ map normal (pkt ∷ pkts))
        × (lookup sid
              (handle_polling_get sid timed_out
                (deliver sid (pkt ∷ pkts) io)).1.session_store.sessions
            ≡ some s')
        × (s'.poll_buffer ≡ [])
  handle_polling_get-deliver sid pkt pkts timed_out s io found idle separated =
      let (s', found', buffer) = deliver-buffer sid (pkt ∷ pkts) s io found in
      let (answer, left) =
        handle_polling_get-session sid timed_out s' (deliver sid (pkt ∷ pkts) io) found' in
      let waiting : s'.poll_buffer ≡ pkt ∷ pkts = buffer ∙ ap (λ b. b ++ (pkt ∷ pkts)) idle in
      (
        encode_polling_payload (pkt ∷ pkts),
        drained timed_out s',
        answer ∙ ap (λ b. some (plain b)) (polled-taken timed_out s' pkt pkts waiting),
        decode-encode_polling_payload (pkt ∷ pkts) separated,
        left,
        drained_empty timed_out s',
      )

module _ {V N : Type 0} (world : World V N) where
  -- The packets that a client of a known session posts are processed in their order as the client
  -- encoded them, but for empty contents, if the text is ASCII and no content holds the separator.
  pub handle_polling_post-encode :
      (sid : Str) (pkts : List EioPacket) (io : Io V N)
      → is_valid sid io.session_store ≡ true
      → All HasNoSeparator pkts
      → IsAscii (encode_polling_payload pkts)
      → handle_polling_post world sid (encode_polling_payload pkts) io
        ≡ answer_post (process_packets world sid (map normal pkts) io)
  unfolding handle_polling_post
  handle_polling_post-encode sid pkts io known separated ascii =
      let read =
        ap decode_polling_payload (from_utf8_lossy_ascii (encode_polling_payload pkts) ascii)
        ∙ decode-encode_polling_payload pkts separated in
      rw known (ap (λ ps. answer_post (process_packets world sid ps io)) read)
